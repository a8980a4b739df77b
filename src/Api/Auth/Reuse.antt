-- ===== src/Api/Auth/Reuse.antt =====
-- POST /auth/refresh of app/api/auth.py: a refresh token that is presented twice.
use open_key_server.Base.{
  ℕ, String, ◌≡◌, ◌≢◌, refl, sym, ap, subst, ◌∙◌, Bool, true, false, Option, some, find,
  find-satisfies, arith, any, ◌==◌, eq_of_==, string_eq, inl, inr, Bool-cases,
}
use open_key_server.Models.{Db}
use open_key_server.Models.Account.{RefreshToken}
use open_key_server.Orm.Session.{Result, ok, err, get_db}
use open_key_server.Orm.Integrity.{IsConsistent}
use open_key_server.Schemas.Auth.{TokenResponse}
use open_key_server.Services.Auth.{Library, Settings, Draw, has_hash, is_live, revoke_at}
use open_key_server.Api.Auth.{refresh}
use open_key_server.Api.Auth.Refresh.{
  Ended, turned_away, punished, rotated, refresh-Ended, refresh-reuse, end_sessions,
  end_sessions-none_live, bad_token,
}

abbrev pub fails : {A : Type 0} → Result A × Db → Bool
fails (ok a, d) = false
fails (err e, d) = true

abbrev user_of : Result TokenResponse → ℕ → ℕ
user_of (ok a) _ = a.user_id
user_of (err e) other = other

miss : (a b : String) → a ≢ b → (a == b) ≡ false
miss a b n = elim (Bool-cases (a == b)) [ inr e ↦ e | inl e ↦ elim (n (eq_of_== a b e)) [ ] ]

module _ (lib : Library) (settings : Settings) (draw : Draw) (raw : String) where
  abbrev found_in : Db → Option RefreshToken
  found_in d = find (has_hash (lib.sha256_hex raw)) d.refresh_tokens

  -- After a successful refresh the presented token is there, revoked, and of the user who was answered.
  pub refresh-revokes :
      (d d' : Db) (a : TokenResponse)
      → Ended lib settings draw raw d (ok a, d')
      → lib.sha256_hex draw.raw_refresh ≢ lib.sha256_hex raw
      → (t : RefreshToken) × (found_in d' ≡ some (revoke_at draw.env.now t))
        × (a.user_id ≡ t.user_id)
  refresh-revokes d d' a (turned_away e why h) fresh = let bad = ap fails h in ground arith
  refresh-revokes d d' a (punished t _ _ h) fresh = let bad = ap fails h in ground arith
  refresh-revokes d d' a (rotated t d₁ d₂ found _ _ p q h) fresh =
      let hit = find-satisfies (has_hash (lib.sha256_hex raw)) d.refresh_tokens t found in
      let other = miss (lib.sha256_hex draw.raw_refresh) (lib.sha256_hex raw) fresh in
      let old = p.at (lib.sha256_hex raw) ∙ rw hit refl in
      let after = q.at (lib.sha256_hex raw) ∙ rw other old in
      (
        t,
        subst (λ d. found_in d ≡ some (revoke_at draw.env.now t)) (sym (ap (λ o. o.1) h)) after,
        ap (λ o. user_of o.0 a.user_id) h,
      )

module _ (lib : Library) (settings : Settings) (draw draw' : Draw) (raw : String) (d d' : Db) where
  -- Once a refresh token has been exchanged for new tokens, presenting it again fails with 401
  -- and leaves its user without a live session, the one that the first exchange opened included;
  -- it is assumed that the new token hashes to another value than the old one. The database is
  -- assumed to meet its unique constraints before the request.
  pub refresh-refresh :
      (a : TokenResponse)
      → IsConsistent d
      → lib.sha256_hex draw.raw_refresh ≢ lib.sha256_hex raw
      → get_db (refresh lib settings draw raw) d ≡ (ok a, d')
      → let second = get_db (refresh lib settings draw' raw) d' in
        (second.0 ≡ err bad_token) × (any (is_live a.user_id) second.1.refresh_tokens ≡ false)
  refresh-refresh a k fresh first =
      let done =
        subst (λ o. Ended lib settings draw raw d o) first
          (refresh-Ended lib settings draw raw d k) in
      let (t, there, same) = refresh-revokes lib settings draw raw d d' a done fresh in
      let again = refresh-reuse lib settings draw' raw d' (revoke_at draw.env.now t) there refl in
      (
        ap (λ o. o.0) again,
        subst (λ o. any (is_live a.user_id) o.1.refresh_tokens ≡ false) (sym again)
            (subst
              (λ i.
                any (is_live i) (end_sessions draw'.env.now t.user_id d').refresh_tokens ≡ false)
              (sym same) (end_sessions-none_live draw'.env.now t.user_id d')),
      )
