-- ===== src/Api/Deps.antt =====
-- app/api/deps.py: the user that a bearer token names.
use open_key_server.Base.{String, Option, none, some, ◌==◌, string_eq}
use open_key_server.Models.Account.{User}
use open_key_server.Orm.Session.{
  M, Error, http, value_error, permission_error, lookup_error, invalid_token, integrity_error,
  raise, guard, or_raise, lift, rethrow, ◌>>=◌, ◌>>◌,
}
use open_key_server.Services.Auth.{Library, Settings, decode_access_token, get_user}
use open_key_server.Text.{lower}
use open_key_server.Api.Request.{Env}

-- What `HTTPBearer` makes of the `Authorization` header.
pub record Credentials : Type 0 where
  pub scheme : String
  pub credentials : String

-- `except jwt.PyJWTError: …`; a `ValueError` goes on up.
abbrev pub unauthenticated : Error → Error
unauthenticated (invalid_token e) = http 401 "Invalid or expired token"
unauthenticated (http n e) = http n e
unauthenticated (value_error e) = value_error e
unauthenticated (permission_error e) = permission_error e
unauthenticated (lookup_error e) = lookup_error e
unauthenticated integrity_error = integrity_error

module _ (lib : Library) (settings : Settings) where
  unfoldable pub get_current_user : Env → Option Credentials → M User
  get_current_user env none = raise (http 401 "Not authenticated")
  get_current_user env (some c) = do
    guard (lower c.scheme == "bearer") (http 401 "Not authenticated")
    user_id ←
        rethrow unauthenticated (lift (decode_access_token lib settings env.now c.credentials))
    found ← get_user user_id
    or_raise found (http 401 "User not found")
