-- ===== src/Api/Auth.antt =====
-- app/api/auth.py: the endpoints of accounts and sessions.
pub mod Refresh
pub mod Rotation
pub mod Reuse
pub mod Accounts
pub mod Rekey
pub mod Deletion
pub mod Integrity
use open_key_server.Base.{String, Option, none, some}
use open_key_server.Models.Account.{User}
use open_key_server.Orm.Session.{
  M, Error, http, value_error, permission_error, lookup_error, invalid_token, integrity_error, pure,
  or_raise, rethrow, ◌>>=◌, ◌>>◌,
}
use open_key_server.Orm.Tables.{select_first, save}
use open_key_server.Orm.Schema.{user_table}
use open_key_server.Schemas.Auth.{
  RegisterRequest, LoginRequest, PreloginResponse, TokenResponse, MeResponse, KeysUpdateRequest,
  RekeyRequest, PublicKeyLookupResponse,
}
use open_key_server.Services.Auth
use open_key_server.Services.Auth.{Library, Settings, Draw, has_email}
use open_key_server.Text.{lower}
use open_key_server.Api.Request.{Env}

-- `except ValueError as exc: …`, and the same for the other two exceptions.
abbrev pub conflict : Error → Error
conflict (value_error e) = http 409 e
conflict (http n e) = http n e
conflict (permission_error e) = permission_error e
conflict (lookup_error e) = lookup_error e
conflict (invalid_token e) = invalid_token e
conflict integrity_error = integrity_error

abbrev pub not_found : Error → Error
not_found (lookup_error e) = http 404 e
not_found (http n e) = http n e
not_found (value_error e) = value_error e
not_found (permission_error e) = permission_error e
not_found (invalid_token e) = invalid_token e
not_found integrity_error = integrity_error

abbrev pub unauthorized : Error → Error
unauthorized (permission_error e) = http 401 e
unauthorized (http n e) = http n e
unauthorized (value_error e) = value_error e
unauthorized (lookup_error e) = lookup_error e
unauthorized (invalid_token e) = invalid_token e
unauthorized integrity_error = integrity_error

abbrev pub me_response : User → MeResponse
me_response user = record {
  user_id = user.id;
  email = user.email;
  public_key = user.public_key;
  encrypted_private_key = user.encrypted_private_key;
  salt = user.salt;
  encrypted_vault_key = user.encrypted_vault_key;
  kdf_params = user.kdf_params;
}

unfoldable pub prelogin : String → M PreloginResponse
prelogin email = rethrow not_found (Auth.prelogin email)

unfoldable pub logout : Library → Env → String → M (Unit {0})
logout lib env refresh_token = Auth.revoke_refresh_token lib env refresh_token

unfoldable pub delete_account : User → String → M (Unit {0})
delete_account user auth_hash = rethrow unauthorized (Auth.delete_account user auth_hash)

abbrev pub with_keys : Env → KeysUpdateRequest → User → User
with_keys env body user = record user {
  public_key = some body.public_key;
  encrypted_private_key = some body.encrypted_private_key;
  updated_at = env.now;
}

unfoldable pub update_keys : Env → User → KeysUpdateRequest → M MeResponse
update_keys env user body = do
  save (with_keys env body user)
  pure (me_response (with_keys env body user))

unfoldable pub rekey : Env → User → RekeyRequest → M MeResponse
rekey env user body = do
  changed ← rethrow unauthorized (Auth.rekey env user body)
  pure (me_response changed)

unfoldable pub lookup_public_key : String → M PublicKeyLookupResponse
lookup_public_key email = do
  found ← select_first (has_email (lower email))
  user ← or_raise found (http 404 "User not found")
  pure (record { user_id = user.id; email = user.email; public_key = user.public_key })

module _ (lib : Library) (settings : Settings) where
  unfoldable pub register : Draw → RegisterRequest → M TokenResponse
  register draw body = rethrow conflict (Auth.register lib settings draw body)

  unfoldable pub login : Draw → LoginRequest → M TokenResponse
  login draw body = rethrow unauthorized (Auth.login lib settings draw body)

  unfoldable pub refresh : Draw → String → M TokenResponse
  refresh draw raw_token = rethrow unauthorized (Auth.refresh lib settings draw raw_token)
