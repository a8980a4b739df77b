-- ===== src/Api/Auth/Accounts.antt =====
-- The accounts of app/api/auth.py: who is let in, and what a change of password does.
use open_key_server.Base.{
  ℕ, ◌<◌, ◌≤◌, ◌+◌, ◌*◌, String, ◌≡◌, refl, sym, ap, subst, ◌∙◌, ◌⊎◌, true, false, none, some, find,
  ◌==◌, ==_refl, nat_eq, string_eq, inl, inr, Option-cases, arith,
}
use open_key_server.Models.{Db}
use open_key_server.Models.Account.{User}
use open_key_server.Orm.Session.{
  Error, Session, Result, M, ok, err, http, integrity_error, get_db, start, permission_error,
  rethrow-ok, rethrow-err, bind-ok, bind-err, value_error, ◌>>=◌,
}
use open_key_server.Orm.Tables.{select_first, add}
use open_key_server.Orm.Schema.{user_table, refresh_token_table}
use open_key_server.Orm.Integrity.{HasKeys, IsConsistent, user_keys, add-Constrains}
use open_key_server.Orm.Keeps.{Keeps-get_db}
use open_key_server.Orm.Keys.{email_key, token_hash_key}
use open_key_server.Orm.Effects.{Puts, refused, stored, add-Flushed}
use open_key_server.Schemas.Auth.{LoginRequest, RegisterRequest, TokenResponse}
use open_key_server.Services.Auth
use open_key_server.Services.Auth.{
  Library, Settings, Draw, has_email, verify_auth_hash, create_access_token, decode_access_token,
  get_user, Claims, to_seconds, access_payload, new_user, new_token, token_response, issue_tokens,
}
use open_key_server.Services.Auth.Issue.{Issued, issue_tokens-Issued, Opened, Opened-Issued}
use open_key_server.Text.{lower, is_empty}
use open_key_server.Api.Request.{Env}
use open_key_server.Api.Deps.{get_current_user}
use open_key_server.Api.Auth.{login, register, unauthorized, conflict}
use open_key_server.Api.Auth.Integrity.{register-Keeps}
use open_key_server.Api.Auth.Reuse.{fails}

-- What the program relies on: PyJWT reads a payload back from the token that it made of it, from the
-- second in which it was issued until it expires, and the text of a key is not empty and reads back as the key.
pub record IsSound (lib : Library) (settings : Settings) (payload : Claims) (i : ℕ) : Type 0 where
  pub jwt-roundtrip :
      (now : ℕ)
      → payload.iat ≤ to_seconds now
      → to_seconds now < payload.exp
      → lib.jwt_decode now
          (lib.jwt_encode payload settings.jwt_secret settings.jwt_algorithm)
          settings.jwt_secret
          settings.jwt_algorithm
        ≡ ok payload
  pub uuid-roundtrip : lib.parse_uuid (lib.uuid_text i) ≡ some i
  pub uuid-not_empty : is_empty (lib.uuid_text i) ≡ false

module _ (lib : Library) (settings : Settings) (made i : ℕ) where
  -- The payload of the access token that the user `i` was given at the time `made`.
  abbrev pub payload : Claims
  payload = access_payload made (settings.access_token_expire_minutes * 60) (lib.uuid_text i)

module _ (lib : Library) (settings : Settings) where
  pub decode-create :
      (made now i : ℕ)
      → IsSound lib settings (payload lib settings made i) i
      → to_seconds made ≤ to_seconds now
      → to_seconds now < to_seconds (made + settings.access_token_expire_minutes * 60 * 1000000)
      → decode_access_token lib settings now (create_access_token lib settings made i).0 ≡ ok i
  unfolding decode_access_token create_access_token
  decode-create made now i sound later fresh =
      rw
        (
          decode_access_token,
          sound.jwt-roundtrip now later fresh,
          sound.uuid-not_empty,
          sound.uuid-roundtrip,
        )
        refl

  -- The access token that a user was given signs the user in, whatever the case of the scheme's
  -- letters, from the second in which it was made until it expires, as long as the account is
  -- there; it is assumed that PyJWT reads back what it wrote, between the payload's iat and its
  -- exp, and that the key's text reads back.
  pub get_current_user-create :
      (made : ℕ) (env : Env) (user : User) (scheme : String) (d : Db)
      → IsSound lib settings (payload lib settings made user.id) user.id
      → to_seconds made ≤ to_seconds env.now
      → to_seconds env.now < to_seconds (made + settings.access_token_expire_minutes * 60 * 1000000)
      → lower scheme ≡ "bearer"
      → find (λ u. u.id == user.id) d.users ≡ some user
      → get_current_user lib settings env
          (some (record {
            scheme = scheme;
            credentials = (create_access_token lib settings made user.id).0;
          }))
          (start d)
        ≡ (ok user, start d)
  unfolding get_current_user get_user select_first
  get_current_user-create made env user scheme d sound later fresh bearer found =
      rw (bearer, decode-create made env.now user.id sound later fresh, found) refl

  module _ (draw : Draw) (body : LoginRequest) (d : Db) where
    -- Nobody has the address, or the hash is another.
    unfoldable pub IsStranger : Type 0
    IsStranger =
        (find (has_email (lower body.email)) d.users ≡ none)
        ⊎ ((user : User) × (find (has_email (lower body.email)) d.users ≡ some user)
            × (verify_auth_hash user.auth_hash body.auth_hash ≡ false))

    rejects :
        IsStranger
        → Auth.login lib settings draw body (start d)
          ≡ (err (permission_error "Invalid email or auth_hash"), start d)
    unfolding Auth.login select_first IsStranger
    rejects (inl e) = rw e refl
    rejects (inr (user, e, wrong)) = rw (e, wrong) refl

    -- A login with an unknown address and one with a wrong hash get the same response, a 401 with
    -- the same text, and change nothing.
    pub login-rejects :
        IsStranger
        → get_db (login lib settings draw body) d ≡ (err (http 401 "Invalid email or auth_hash"), d)
    unfolding login
    login-rejects h = rethrow-err unauthorized (Auth.login lib settings draw body) d (rejects h)

    pub login-Issued :
        (user : User)
        → IsConsistent d
        → find (has_email (lower body.email)) d.users ≡ some user
        → verify_auth_hash user.auth_hash body.auth_hash ≡ true
        → Issued lib settings draw user.id (start d) (Auth.login lib settings draw body (start d))
    unfolding Auth.login select_first
    login-Issued user k e right =
        rw (e, right) (issue_tokens-Issued lib settings draw user (start d) k.refresh_tokens_keys)

module _ (lib : Library) (settings : Settings) (draw : Draw) (body : RegisterRequest) (d : Db) where
  abbrev fresh_user : User
  fresh_user = new_user draw.env body

  abbrev insert : M (Unit {0})
  insert = add fresh_user

  abbrev open_session : Unit {0} → M TokenResponse
  open_session _ = issue_tokens lib settings draw fresh_user

  pub data Registered (o : Result TokenResponse × Db) : Type 0 where
    turned_away : (e : Error) → o ≡ (err e, d) → Registered o
    registered :
        (d₁ d₂ : Db)
        → find (has_email (lower body.email)) d.users ≡ none
        → Puts email_key fresh_user d d₁
        → Puts token_hash_key (new_token lib settings draw fresh_user.id) d₁ d₂
        → o ≡ (ok (token_response lib settings draw fresh_user.id), d₂)
        → Registered o

  refuse :
      (e : Error) (s : Session)
      → Auth.register lib settings draw body (start d) ≡ (err e, s)
      → s.committed ≡ d
      → Registered (get_db (register lib settings draw body) d)
  unfolding register
  refuse e s r c = turned_away (conflict e) (
      subst (λ x. get_db (register lib settings draw body) d ≡ (err (conflict e), x)) c
        (rethrow-err conflict (Auth.register lib settings draw body) d r))

  registration :
      find (has_email (lower body.email)) d.users ≡ none
      → Auth.register lib settings draw body (start d) ≡ (insert >>= open_session) (start d)
  unfolding Auth.register select_first
  registration free = rw free refl

  module _ (k : IsConsistent d) where
    keys_after :
        (d₁ : Db)
        → insert (start d) ≡ (ok tt, record (start d) { current = d₁ })
        → HasKeys refresh_token_table d₁
    keys_after d₁ e =
        (subst (λ o. IsConsistent o.1.current) e
          ((add-Constrains user_keys fresh_user).at (start d) k k).0).refresh_tokens_keys

    pub register-Registered : Registered (get_db (register lib settings draw body) d)
    unfolding register Auth.register select_first
    register-Registered = elim (Option-cases (find (has_email (lower body.email)) d.users)) [
      | inr (user, taken) ↦
          refuse (value_error "Email already registered") (start d) (rw taken refl) refl
      | inl free ↦ elim (add-Flushed email_key fresh_user (start d) k.users_keys) [
        | refused e ↦
            refuse integrity_error (start d) (registration free ∙ bind-err insert open_session e)
              refl
        | stored d₁ e p ↦
            let s₁ : Session = record (start d) { current = d₁ } in
            let steps = registration free ∙ bind-ok insert open_session e in
            elim (issue_tokens-Issued lib settings draw fresh_user s₁ (keys_after d₁ e)) [
              | inl e' ↦ refuse integrity_error s₁ (steps ∙ e') refl
              | inr (d₂, e', q) ↦ registered d₁ d₂ free p q (
                  rethrow-ok conflict (Auth.register lib settings draw body) d
                    {s = record s₁ { current = d₂ }} (steps ∙ e'))
            ]
      ]
    ]

  -- The user that a registration stores.
  pub Registered-found :
      (a : TokenResponse) (d' : Db)
      → Registered (ok a, d')
      → find (has_email (lower body.email)) d'.users ≡ some fresh_user
  Registered-found a d' (turned_away e h) = let bad = ap fails h in ground arith
  Registered-found a d' (registered d₁ d₂ free p q h) =
      let there = p.at (lower body.email) ∙ rw (==_refl (lower body.email)) refl in
      subst (λ d. find (has_email (lower body.email)) d.users ≡ some fresh_user)
        (sym (ap (λ o. o.1) h))
        (subst (λ d. find (has_email (lower body.email)) d.users ≡ some fresh_user) (sym q.rest)
          there)

  -- After a registration that succeeded, a login with the same address in any case and an equal
  -- hash up to base64 padding answers with the new user's tokens and stores exactly one session,
  -- which is the new user's, not revoked, and has the hash of the answer's refresh token and the
  -- configured life; or the database refuses the session's row. The case is that of ASCII
  -- letters. The database is assumed to meet its unique constraints before the request.
  pub register-login :
      (draw' : Draw) (a : TokenResponse) (d' : Db) (again : LoginRequest)
      → IsConsistent d
      → get_db (register lib settings draw body) d ≡ (ok a, d')
      → lower again.email ≡ lower body.email
      → verify_auth_hash body.auth_hash again.auth_hash ≡ true
      → Opened lib settings draw' draw.env.new_id
          (start d')
          (Auth.login lib settings draw' again (start d'))
  register-login draw' a d' again k done same right =
      let stored = Registered-found a d' (subst Registered done (register-Registered k)) in
      let k' =
        subst (λ o. IsConsistent o.1) done
          (Keeps-get_db (register lib settings draw body) d (register-Keeps lib settings draw body)
            k) in
      Opened-Issued lib settings draw' draw.env.new_id (start d')
        (Auth.login lib settings draw' again (start d'))
        (login-Issued lib settings draw' again d' fresh_user k'
          (subst (λ e. find (has_email e) d'.users ≡ some fresh_user) (sym same) stored) right)
