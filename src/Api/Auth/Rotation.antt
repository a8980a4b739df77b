-- ===== src/Api/Auth/Rotation.antt =====
-- POST /auth/refresh of app/api/auth.py: what it comes to.
use open_key_server.Base.{String, ◌<◌, ◌≡◌, ◌≢◌, refl, none, some, find, ◌==◌, string_eq, arith}
use open_key_server.Models.{Db}
use open_key_server.Models.Account.{RefreshToken}
use open_key_server.Orm.Session.{Error, Result, ok, err, get_db}
use open_key_server.Orm.Integrity.{IsConsistent}
use open_key_server.Orm.Keys.{token_hash_key}
use open_key_server.Orm.Effects.{Puts}
use open_key_server.Schemas.Auth.{TokenResponse}
use open_key_server.Services.Auth.{Library, Settings, Draw, new_token, token_response}
use open_key_server.Services.Auth.Issue.{IsSession, IsAnswer}
use open_key_server.Api.Auth.{refresh}
use open_key_server.Api.Auth.Refresh.{
  Ended, turned_away, punished, rotated, Denial, refresh-Ended, end_sessions, bad_token, none_of,
  not_none,
}

module _ (lib : Library) (settings : Settings) (draw : Draw) (raw : String) (d : Db) where
  -- The session that the token belongs to.
  abbrev pub Presents : RefreshToken → Type 0
  Presents t = find (λ t. t.token_hash == lib.sha256_hex raw) d.refresh_tokens ≡ some t

  pub data Refreshed (o : Result TokenResponse × Db) : Type 0 where
    denied : (e : Error) → Denial lib settings draw raw d e → o ≡ (err e, d) → Refreshed o
    caught :
        (t : RefreshToken)
        → Presents t
        → t.revoked_at ≢ none
        → o ≡ (err bad_token, end_sessions draw.env.now t.user_id d)
        → Refreshed o
    exchanged :
        (t n : RefreshToken) (a : TokenResponse) (d₁ d₂ : Db)
        → Presents t
        → t.revoked_at ≡ none
        → draw.env.now < t.expires_at
        → IsSession lib settings draw t.user_id n
        → IsAnswer lib settings draw t.user_id a
        → Puts token_hash_key (record t { revoked_at = some draw.env.now }) d d₁
        → Puts token_hash_key n d₁ d₂
        → o ≡ (ok a, d₂)
        → Refreshed o

  Refreshed-Ended : (o : Result TokenResponse × Db) → Ended lib settings draw raw d o → Refreshed o
  Refreshed-Ended o (turned_away e why h) = denied e why h
  Refreshed-Ended o (punished t found used h) = caught t found (not_none t.revoked_at used) h
  Refreshed-Ended o (rotated t d₁ d₂ found live fresh p q h) =
      exchanged t (new_token lib settings draw t.user_id)
        (token_response lib settings draw t.user_id) d₁ d₂ found (none_of t.revoked_at live)
        (ground (arith, fresh)) (refl, refl, refl, refl) (refl, refl, refl) p q h

  -- A refresh comes to one of three ends. It is turned away and changes nothing: with 401 if the
  -- token is unknown or it is not revoked and has expired or has no user, or because the database
  -- refuses a row of a live token's exchange. It presented a revoked token, fails with 401 and
  -- revokes every session of that token's user for good. Or it presented a token that is neither
  -- revoked nor expired, which is revoked now, and exactly one new session is stored and
  -- answered: of the same user, not revoked, with the hash of the answer's token and the
  -- configured life. The database is assumed to meet its unique constraints before the request.
  pub refresh-Refreshed : IsConsistent d → Refreshed (get_db (refresh lib settings draw raw) d)
  refresh-Refreshed k =
      Refreshed-Ended (get_db (refresh lib settings draw raw) d)
        (refresh-Ended lib settings draw raw d k)
