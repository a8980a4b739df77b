-- ===== src/Services/Auth/Issue.antt =====
-- AuthService._issue_tokens of app/services/auth_service.py: what opening a session does.
use open_key_server.Base.{
  ℕ, ◌+◌, ◌*◌, none, ◌≡◌, refl, subst, ◌⊎◌, inl, inr, ◌==◌, nat_eq, some, find, find-satisfies,
  arith,
}
use open_key_server.Models.{Db}
use open_key_server.Models.Account.{User, RefreshToken}
use open_key_server.Orm.Session.{
  Session, M, Result, ok, err, integrity_error, pure, bind-ok, bind-err,
}
use open_key_server.Orm.Tables.{add}
use open_key_server.Orm.Schema.{refresh_token_table}
use open_key_server.Orm.Integrity.{HasKeys}
use open_key_server.Orm.Keys.{token_hash_key}
use open_key_server.Orm.Effects.{Puts, refused, stored, add-Flushed}
use open_key_server.Schemas.Auth.{TokenResponse}
use open_key_server.Services.Auth.{
  Library, Settings, Draw, new_token, token_response, issue_tokens, create_access_token,
}

module _ (lib : Library) (settings : Settings) (draw : Draw) where
  -- A session of the user with the key `i` is opened, or the database refuses it.
  abbrev pub Issued : ℕ → Session → Result TokenResponse × Session → Type 0
  Issued i s o =
      (o ≡ (err integrity_error, s))
      ⊎ ((d : Db) × (o ≡ (ok (token_response lib settings draw i), record s { current = d }))
          × Puts token_hash_key (new_token lib settings draw i) s.current d)

  -- The row of a session of the user `i`, and the answer that hands it out.
  abbrev pub IsSession : ℕ → RefreshToken → Type 0
  IsSession i t =
      (t.user_id ≡ i)
      × (t.token_hash ≡ lib.sha256_hex draw.raw_refresh)
      × (t.revoked_at ≡ none)
      × (t.expires_at ≡ draw.env.now + settings.refresh_token_expire_days * 86400000000)

  abbrev pub IsAnswer : ℕ → TokenResponse → Type 0
  IsAnswer i a =
      (a.user_id ≡ i)
      × (a.refresh_token ≡ draw.raw_refresh)
      × (a.access_token ≡ (create_access_token lib settings draw.env.now i).0)

  -- The answer was given, and exactly one session is stored, or the database refuses it.
  abbrev pub Opened : ℕ → Session → Result TokenResponse × Session → Type 0
  Opened i s o =
      (o ≡ (err integrity_error, s))
      ⊎ ((t : RefreshToken) × (a : TokenResponse) × (d : Db) × (o
            ≡ (ok a, record s { current = d }))
          × IsSession i t
          × IsAnswer i a
          × Puts token_hash_key t s.current d)

  pub Opened-Issued :
      (i : ℕ) (s : Session) (o : Result TokenResponse × Session) → Issued i s o → Opened i s o
  Opened-Issued i s o (inl e) = inl e
  Opened-Issued i s o (inr (d, e, p)) = inr (
    new_token lib settings draw i,
    token_response lib settings draw i,
    d,
    e,
    (refl, refl, refl, refl),
    (refl, refl, refl),
    p,
  )

  abbrev insert : User → M (Unit {0})
  insert user = add (new_token lib settings draw user.id)

  abbrev reply : User → Unit {0} → M TokenResponse
  reply user _ = pure (token_response lib settings draw user.id)

  pub issue_tokens-Issued :
      (user : User) (s : Session)
      → HasKeys refresh_token_table s.current
      → Issued user.id s (issue_tokens lib settings draw user s)
  unfolding issue_tokens
  issue_tokens-Issued user s keys =
      elim (add-Flushed token_hash_key (new_token lib settings draw user.id) s keys) [
        | refused e ↦ inl (bind-err (insert user) (reply user) e)
        | stored d e p ↦ inr (d, bind-ok (insert user) (reply user) e, p)
      ]

  -- The same for the user that was looked up by the key.
  pub issue_found-Issued :
      (i : ℕ) (user : User) (s : Session)
      → find (λ u. u.id == i) s.current.users ≡ some user
      → HasKeys refresh_token_table s.current
      → Issued i s (issue_tokens lib settings draw user s)
  issue_found-Issued i user s found keys =
      subst (λ j. Issued j s (issue_tokens lib settings draw user s)) same
        (issue_tokens-Issued user s keys)
    where
      same : user.id ≡ i
      same = let h = find-satisfies (λ u. u.id == i) s.current.users user found in ground arith
