-- ===== src/Models/Account.antt =====
-- app/models/user.py and app/models/refresh_token.py: accounts and their sessions.
-- A primary key is a number, a time is a number of microseconds since the epoch, and the opaque
-- `kdf_params` is its JSON text. Relationships are looked up by key.
use open_key_server.Base.{ℕ, String, Option}

pub record User : Type 0 where
  pub id : ℕ
  pub email : String
  pub auth_hash : String
  pub encrypted_vault_key : String
  pub kdf_params : String
  pub salt : String
  pub public_key : Option String
  pub encrypted_private_key : Option String
  pub created_at : ℕ
  pub updated_at : ℕ

pub record RefreshToken : Type 0 where
  pub id : ℕ
  pub user_id : ℕ
  pub token_hash : String
  pub expires_at : ℕ
  pub revoked_at : Option ℕ
  pub created_at : ℕ
