-- ===== src/Api/Auth/Rekey.antt =====
-- POST /auth/rekey of app/api/auth.py, with AuthService.rekey: a change of the master password.
use open_key_server.Base.{
  String, Option, none, ◌≡◌, refl, ◌∙◌, true, false, some, find, ◌==◌, nat_eq, inl, inr, Bool-cases,
}
use open_key_server.Models.{Db}
use open_key_server.Models.Account.{User}
use open_key_server.Orm.Session.{
  Result, M, ok, err, http, integrity_error, get_db, start, permission_error, pure, ◌>>=◌, ◌>>◌,
  bind-ok, bind-err, respond-ok, respond-err,
}
use open_key_server.Orm.Tables.{save, update_where}
use open_key_server.Orm.Schema.{user_table, refresh_token_table}
use open_key_server.Orm.Integrity.{IsConsistent}
use open_key_server.Orm.Keys.{user_id}
use open_key_server.Orm.Effects.{Puts, refused, stored, save-Flushed}
use open_key_server.Schemas.Auth.{RekeyRequest, MeResponse}
use open_key_server.Services.Auth
use open_key_server.Services.Auth.{keep_or, verify_auth_hash, rekeyed, revoke_all_refresh_tokens}
use open_key_server.Api.Request.{Env}
use open_key_server.Api.Auth.{rekey, unauthorized, me_response}
use open_key_server.Api.Auth.Refresh.{end_sessions}

-- A text that was sent, or else the old one.
abbrev pub Sent : Option String → String → String → Type 0
Sent none old new = new ≡ old
Sent (some text) old new = new ≡ text

keep_or-Sent : (sent : Option String) (old : String) → Sent sent old (keep_or sent old)
keep_or-Sent none old = refl
keep_or-Sent (some text) old = refl

-- The user's row with the new hash and the new vault key, and the key's parameters that were sent.
abbrev pub HasNewKeys : Env → RekeyRequest → User → User → Type 0
HasNewKeys env body old u =
    (u.auth_hash ≡ body.auth_hash)
    × (u.encrypted_vault_key ≡ body.encrypted_vault_key)
    × Sent body.salt old.salt u.salt
    × Sent body.kdf_params old.kdf_params u.kdf_params
    × (u.updated_at ≡ env.now)
    × (u.id ≡ old.id)
    × (u.email ≡ old.email)
    × (u.public_key ≡ old.public_key)
    × (u.encrypted_private_key ≡ old.encrypted_private_key)
    × (u.created_at ≡ old.created_at)

module _ (env : Env) (user : User) (body : RekeyRequest) (d : Db) where
  -- The old hash is wrong and nothing happens; the database refuses the row and nothing happens; or
  -- the user's keys are replaced and every session of the user ends.
  pub data Rekeyed (o : Result MeResponse × Db) : Type 0 where
    wrong_hash :
        verify_auth_hash user.auth_hash body.current_auth_hash ≡ false
        → o ≡ (err (http 401 "Invalid current auth_hash"), d)
        → Rekeyed o
    conflicting :
        verify_auth_hash user.auth_hash body.current_auth_hash ≡ true
        → o ≡ (err integrity_error, d)
        → Rekeyed o
    changed :
        (r : User) (d₁ : Db)
        → HasNewKeys env body user r
        → verify_auth_hash user.auth_hash body.current_auth_hash ≡ true
        → Puts user_id r d d₁
        → o ≡ (ok (me_response r), end_sessions env.now user.id d₁)
        → Rekeyed o

  new_keys : HasNewKeys env body user (rekeyed env body user)
  new_keys = (
    refl,
    refl,
    keep_or-Sent body.salt user.salt,
    keep_or-Sent body.kdf_params user.kdf_params,
    refl,
    refl,
    refl,
    refl,
    refl,
    refl,
  )

  abbrev replace_keys : M (Unit {0})
  replace_keys = save (rekeyed env body user)

  abbrev end_all : Unit {0} → M User
  end_all _ = revoke_all_refresh_tokens user.id env.now >> pure (rekeyed env body user)

  rekeying :
      verify_auth_hash user.auth_hash body.current_auth_hash ≡ true
      → Auth.rekey env user body (start d) ≡ (replace_keys >>= end_all) (start d)
  unfolding Auth.rekey
  rekeying right = rw right refl

  -- A rekey with a wrong hash fails with 401 and changes nothing; with the right hash the
  -- database refuses the row and nothing changes, or the user's row has the hash and the vault
  -- key that were sent, with the salt and the parameters that were sent or else the old ones, and
  -- is otherwise the old row, other users' rows are kept, and every session of the user is
  -- revoked. The database is assumed to meet its unique constraints before the request. The
  -- user's row is assumed to be stored.
  pub rekey-Rekeyed :
      IsConsistent d
      → find (λ u. u.id == user.id) d.users ≡ some user
      → Rekeyed (get_db (rekey env user body) d)
  unfolding rekey Auth.rekey revoke_all_refresh_tokens update_where end_sessions
  rekey-Rekeyed k found =
      elim (Bool-cases (verify_auth_hash user.auth_hash body.current_auth_hash)) [
        | inr wrong ↦ wrong_hash wrong (
            respond-err unauthorized me_response (Auth.rekey env user body) d {s = start d}
              {e = permission_error "Invalid current auth_hash"} (rw wrong refl))
        | inl right ↦
            elim (save-Flushed user_id (λ u. u.id == user.id) user (rekeyed env body user) (start d)
              k.users_keys found refl (λ j. refl)) [
                | refused e ↦ conflicting right (
                    respond-err unauthorized me_response (Auth.rekey env user body) d
                      (rekeying right ∙ bind-err replace_keys end_all e))
                | stored d₁ e p ↦ changed (rekeyed env body user) d₁ new_keys right p (
                    respond-ok unauthorized me_response (Auth.rekey env user body) d
                      (rekeying right ∙ bind-ok replace_keys end_all e))
              ]
      ]
