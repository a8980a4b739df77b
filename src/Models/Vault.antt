-- ===== src/Models/Vault.antt =====
-- app/models/collection.py, entry.py and attachment.py: the rows of a personal vault.
-- A blob is the list of its bytes.
use open_key_server.Base.{ℕ, String, Bool, Option, List}
use open_key_server.Base.Int.{ℤ}

pub record Collection : Type 0 where
  pub id : ℕ
  pub user_id : ℕ
  pub uuid : String
  pub encrypted_name : String
  pub icon : String
  pub color : Option ℤ
  pub parent_uuid : Option String
  pub sort_order : ℤ
  pub revision : ℕ
  pub is_deleted : Bool
  pub created_at : ℕ
  pub updated_at : ℕ

pub record Entry : Type 0 where
  pub id : ℕ
  pub user_id : ℕ
  pub uuid : String
  pub collection_uuid : Option String
  pub encrypted_payload : String
  pub revision : ℕ
  pub is_deleted : Bool
  pub created_at : ℕ
  pub updated_at : ℕ

pub record Attachment : Type 0 where
  pub id : ℕ
  pub user_id : ℕ
  pub uuid : String
  pub entry_uuid : String
  pub filename : String
  pub size_bytes : ℕ
  pub encrypted_blob : List ℕ
  pub content_type : Option String
  pub revision : ℕ
  pub is_deleted : Bool
  pub created_at : ℕ
  pub updated_at : ℕ
