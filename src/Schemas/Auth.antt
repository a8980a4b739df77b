-- ===== src/Schemas/Auth.antt =====
-- app/schemas/auth.py. `EmailStr` is a parameter of the validation: an address in a body is one
-- that it lets through.
use open_key_server.Base.{ℕ, String, Bool, ◌&&◌, Option, leb}
use open_key_server.Schemas.Fields.{check_optional}
use open_key_server.Text.{str_len}

abbrev not_empty : String → Bool
not_empty s = leb 1 (str_len s)

pub record RegisterRequest : Type 0 where
  pub email : String
  pub auth_hash : String
  pub encrypted_vault_key : String
  pub kdf_params : String
  pub salt : String
  pub public_key : Option String

unfoldable pub validate_register : (String → Bool) → RegisterRequest → Bool
validate_register is_email b =
    is_email b.email && not_empty b.auth_hash && not_empty b.encrypted_vault_key && not_empty b.salt

pub record LoginRequest : Type 0 where
  pub email : String
  pub auth_hash : String

unfoldable pub validate_login : (String → Bool) → LoginRequest → Bool
validate_login is_email b = is_email b.email && not_empty b.auth_hash

pub record PreloginResponse : Type 0 where
  pub salt : String
  pub kdf_params : String

pub record TokenResponse : Type 0 where
  pub access_token : String
  pub refresh_token : String
  pub user_id : ℕ
  pub token_type : String
  pub expires_in : ℕ

pub record MeResponse : Type 0 where
  pub user_id : ℕ
  pub email : String
  pub public_key : Option String
  pub encrypted_private_key : Option String
  pub salt : String
  pub encrypted_vault_key : String
  pub kdf_params : String

pub record KeysUpdateRequest : Type 0 where
  pub public_key : String
  pub encrypted_private_key : String

unfoldable pub validate_keys_update : KeysUpdateRequest → Bool
validate_keys_update b = not_empty b.public_key && not_empty b.encrypted_private_key

pub record RekeyRequest : Type 0 where
  pub current_auth_hash : String
  pub auth_hash : String
  pub encrypted_vault_key : String
  pub salt : Option String
  pub kdf_params : Option String

unfoldable pub validate_rekey : RekeyRequest → Bool
validate_rekey b =
    not_empty b.current_auth_hash
    && not_empty b.auth_hash
    && not_empty b.encrypted_vault_key
    && check_optional not_empty b.salt

pub record PublicKeyLookupResponse : Type 0 where
  pub user_id : ℕ
  pub email : String
  pub public_key : Option String
