-- ===== src/Api/Auth/Refresh.antt =====
-- POST /auth/refresh of app/api/auth.py, with AuthService.refresh.
use open_key_server.Base.{
  ℕ, ◌≤◌, ◌<◌, ◌&&◌, ◌≢◌, String, ◌≡◌, refl, sym, ap, none, subst, ◌∙◌, true, false, Option, some,
  List, [], ◌∷◌, inl, inr, Option-cases, Bool-cases, arith, find, any, map, leb, ◌==◌, nat_eq,
  string_eq, if◌then◌else◌,
}
use open_key_server.Models.{Db}
use open_key_server.Models.Account.{User, RefreshToken}
use open_key_server.Orm.Session.{
  or_raise, ◌>>=◌, Session, Error, Result, M, ok, err, http, integrity_error, commit, get_db, start,
  permission_error, rethrow-ok, rethrow-err, bind-ok, bind-err,
}
use open_key_server.Orm.Tables.{select_first, save, update_where}
use open_key_server.Orm.Schema.{user_table, refresh_token_table}
use open_key_server.Orm.Integrity.{HasKeys, IsConsistent, refresh_token_keys, save-Constrains}
use open_key_server.Orm.Keys.{token_hash_key}
use open_key_server.Orm.Effects.{Puts, refused, stored, save-Flushed}
use open_key_server.Schemas.Auth.{TokenResponse}
use open_key_server.Services.Auth
use open_key_server.Services.Auth.Issue.{issue_found-Issued}
use open_key_server.Services.Auth.{
  Library, Settings, Draw, has_hash, is_live, revoke_at, new_token, token_response,
  revoke_all_refresh_tokens, punish_reuse, issue_tokens, get_user,
}
use open_key_server.Api.Request.{is_none}
use open_key_server.Api.Auth.{refresh, unauthorized}

abbrev denied : Error
denied = permission_error "Invalid or expired refresh token"

abbrev pub bad_token : Error
bad_token = http 401 "Invalid or expired refresh token"

-- The database with every session of the user revoked.
unfoldable pub end_sessions : ℕ → ℕ → Db → Db
end_sessions now i d = record d {
  refresh_tokens =
      map
        (λ t.
          if t.user_id == i && is_none t.revoked_at then record t { revoked_at = some now } else t)
        d.refresh_tokens;
}

pub end_sessions-none_live :
    (now i : ℕ) (d : Db) → any (is_live i) (end_sessions now i d).refresh_tokens ≡ false
unfolding end_sessions any
end_sessions-none_live now i d = none_live d.refresh_tokens
  where
    none_live :
        (ts : List RefreshToken)
        → any (is_live i) (map (λ t. if is_live i t then revoke_at now t else t) ts) ≡ false
    none_live [] = refl
    none_live (t ∷ ts) = elim (Bool-cases (is_live i t)) [
      | inl live ↦ let rest = none_live ts in rw live (ground arith)
      | inr dead ↦ let rest = none_live ts in rw dead (ground arith)
    ]

pub not_none : {A : Type 0} (o : Option A) → is_none o ≡ false → ◌≢◌ {A = Option A} o none
not_none none h e = cc
not_none (some a) h e = cc

pub none_of : {A : Type 0} (o : Option A) → is_none o ≡ true → o ≡ none
none_of none h = refl
none_of (some a) h = cc

module _ (lib : Library) (settings : Settings) (draw : Draw) (raw : String) (d : Db) where
  reuse :
      (t : RefreshToken)
      → find (has_hash (lib.sha256_hex raw)) d.refresh_tokens ≡ some t
      → is_none t.revoked_at ≡ false
      → Auth.refresh lib settings draw raw (start d)
        ≡ (err denied, start (end_sessions draw.env.now t.user_id d))
  unfolding Auth.refresh select_first punish_reuse revoke_all_refresh_tokens update_where commit
      end_sessions
  reuse t e r = rw (e, r) refl

  pub refresh-reuse :
      (t : RefreshToken)
      → find (has_hash (lib.sha256_hex raw)) d.refresh_tokens ≡ some t
      → is_none t.revoked_at ≡ false
      → get_db (refresh lib settings draw raw) d
        ≡ (err bad_token, end_sessions draw.env.now t.user_id d)
  unfolding refresh
  refresh-reuse t e r =
      rethrow-err unauthorized (Auth.refresh lib settings draw raw) d (reuse t e r)

  -- Why a refresh is turned away: nobody has the token, it has expired, its user is gone, or the database
  -- refuses a row.
  pub data Denial (e : Error) : Type 0 where
    unknown :
        find (λ t. t.token_hash == lib.sha256_hex raw) d.refresh_tokens ≡ none
        → e ≡ bad_token
        → Denial e
    expired :
        (t : RefreshToken)
        → find (λ t. t.token_hash == lib.sha256_hex raw) d.refresh_tokens ≡ some t
        → t.revoked_at ≡ none
        → t.expires_at ≤ draw.env.now
        → e ≡ bad_token
        → Denial e
    orphaned :
        (t : RefreshToken)
        → find (λ t. t.token_hash == lib.sha256_hex raw) d.refresh_tokens ≡ some t
        → t.revoked_at ≡ none
        → find (λ u. u.id == t.user_id) d.users ≡ none
        → e ≡ bad_token
        → Denial e
    conflicting :
        (t : RefreshToken)
        → find (λ t. t.token_hash == lib.sha256_hex raw) d.refresh_tokens ≡ some t
        → t.revoked_at ≡ none
        → draw.env.now < t.expires_at
        → e ≡ integrity_error
        → Denial e

  -- What a refresh comes to: it is turned away and changes nothing; it ends every session of the
  -- user; or it revokes the session that was presented and stores the new one.
  pub data Ended (o : Result TokenResponse × Db) : Type 0 where
    turned_away : (e : Error) → Denial e → o ≡ (err e, d) → Ended o
    punished :
        (t : RefreshToken)
        → find (has_hash (lib.sha256_hex raw)) d.refresh_tokens ≡ some t
        → is_none t.revoked_at ≡ false
        → o ≡ (err bad_token, end_sessions draw.env.now t.user_id d)
        → Ended o
    rotated :
        (t : RefreshToken) (d₁ d₂ : Db)
        → find (has_hash (lib.sha256_hex raw)) d.refresh_tokens ≡ some t
        → is_none t.revoked_at ≡ true
        → leb t.expires_at draw.env.now ≡ false
        → Puts token_hash_key (revoke_at draw.env.now t) d d₁
        → Puts token_hash_key (new_token lib settings draw t.user_id) d₁ d₂
        → o ≡ (ok (token_response lib settings draw t.user_id), d₂)
        → Ended o

  refuse :
      (e : Error) (s : Session)
      → Auth.refresh lib settings draw raw (start d) ≡ (err e, s)
      → s.committed ≡ d
      → Denial (unauthorized e)
      → Ended (get_db (refresh lib settings draw raw) d)
  unfolding refresh
  refuse e s r c why = turned_away (unauthorized e) why (
      subst (λ x. get_db (refresh lib settings draw raw) d ≡ (err (unauthorized e), x)) c
        (rethrow-err unauthorized (Auth.refresh lib settings draw raw) d r))

  -- The last steps: the old session is revoked, and a new one is opened for its user.
  abbrev reopen : RefreshToken → Option User → M TokenResponse
  reopen t found = or_raise found denied >>= issue_tokens lib settings draw

  abbrev replace_session : RefreshToken → Unit {0} → M TokenResponse
  replace_session t _ = get_user t.user_id >>= reopen t

  abbrev revoke : RefreshToken → M (Unit {0})
  revoke t = save (revoke_at draw.env.now t)

  rotation :
      (t : RefreshToken)
      → find (has_hash (lib.sha256_hex raw)) d.refresh_tokens ≡ some t
      → is_none t.revoked_at ≡ true
      → leb t.expires_at draw.env.now ≡ false
      → Auth.refresh lib settings draw raw (start d) ≡ (revoke t >>= replace_session t) (start d)
  unfolding Auth.refresh select_first
  rotation t e live fresh = rw (e, live, fresh) refl

  module _ (k : IsConsistent d) where
    keys_after :
        (t : RefreshToken) (d₁ : Db)
        → revoke t (start d) ≡ (ok tt, record (start d) { current = d₁ })
        → HasKeys refresh_token_table d₁
    keys_after t d₁ e =
        (subst (λ o. IsConsistent o.1.current) e
          ((save-Constrains refresh_token_keys (revoke_at draw.env.now t)).at (start d) k
            k).0).refresh_tokens_keys

    revoked_then :
        (t : RefreshToken) (d₁ : Db)
        → find (has_hash (lib.sha256_hex raw)) d.refresh_tokens ≡ some t
        → is_none t.revoked_at ≡ true
        → leb t.expires_at draw.env.now ≡ false
        → revoke t (start d) ≡ (ok tt, record (start d) { current = d₁ })
        → Puts token_hash_key (revoke_at draw.env.now t) d d₁
        → Ended (get_db (refresh lib settings draw raw) d)
    unfolding refresh get_user select_first
    revoked_then t d₁ e live fresh saved p =
        let s₁ : Session = record (start d) { current = d₁ } in
        let steps = rotation t e live fresh ∙ bind-ok (revoke t) (replace_session t) saved in
        elim (Option-cases (find (λ u. u.id == t.user_id) d₁.users)) [
          | inl gone ↦ refuse denied s₁ (steps ∙ rw gone refl) refl (
              orphaned t e (none_of t.revoked_at live)
                (ap (λ d. find (λ u. u.id == t.user_id) d.users) (sym p.rest) ∙ gone) refl)
          | inr (user, there) ↦
              elim (issue_found-Issued lib settings draw t.user_id user s₁ there
                (keys_after t d₁ saved)) [
                  | inl e' ↦
                      refuse integrity_error s₁ (steps ∙ rw there e') refl
                        (conflicting t e (none_of t.revoked_at live) (ground (arith, fresh)) refl)
                  | inr (d₂, e', q) ↦ rotated t d₁ d₂ e live fresh p q (
                      rethrow-ok unauthorized (Auth.refresh lib settings draw raw) d
                        {s = record s₁ { current = d₂ }} (steps ∙ rw there e'))
                ]
        ]

    -- A refresh comes to one of three ends: it is turned away and changes nothing; it presented a
    -- revoked token, fails with 401 and revokes every session of that user for good; or it
    -- presented a live token, which is revoked, and exactly one new session of the same user is
    -- stored and returned. The database is assumed to meet its unique constraints before the
    -- request.
    pub refresh-Ended : Ended (get_db (refresh lib settings draw raw) d)
    unfolding Auth.refresh select_first
    refresh-Ended = elim (Option-cases (find (has_hash (lib.sha256_hex raw)) d.refresh_tokens)) [
      | inl e ↦ refuse denied (start d) (rw e refl) refl (unknown e refl)
      | inr (t, e) ↦ elim (Bool-cases (is_none t.revoked_at)) [
        | inr used ↦ punished t e used (refresh-reuse t e used)
        | inl live ↦ elim (Bool-cases (leb t.expires_at draw.env.now)) [
          | inl late ↦
              refuse denied (start d) (rw (e, live, late) refl) refl
                (expired t e (none_of t.revoked_at live) (ground (arith, late)) refl)
          | inr fresh ↦
              elim (save-Flushed token_hash_key (has_hash (lib.sha256_hex raw)) t
                (revoke_at draw.env.now t) (start d) k.refresh_tokens_keys e refl (λ j. refl)) [
                  | refused e' ↦
                      refuse integrity_error (start d)
                        (rotation t e live fresh ∙ bind-err (revoke t) (replace_session t) e') refl
                        (conflicting t e (none_of t.revoked_at live) (ground (arith, fresh)) refl)
                  | stored d₁ e' p ↦ revoked_then t d₁ e live fresh e' p
                ]
        ]
      ]
    ]
