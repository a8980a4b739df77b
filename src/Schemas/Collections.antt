-- ===== src/Schemas/Collections.antt =====
-- app/schemas/collection.py. A body stands for the JSON with its defaults put in.
use open_key_server.Base.{ℕ, String, Bool, ◌&&◌, Option, leb, if◌then◌else◌, none, some}
use open_key_server.Base.Int.{ℤ}
use open_key_server.Models.Vault.{Collection}
use open_key_server.Schemas.VaultIds.{normalize_folder_id, max_collection_icon_chars}
use open_key_server.Schemas.Fields.{
  Patch, length_within, check_optional, check_patch, normalize_patch,
}
use open_key_server.Text.{str_len}

pub record CollectionCreate : Type 0 where
  pub uuid : String
  pub encrypted_name : String
  pub icon : String
  pub color : Option ℤ
  pub parent_uuid : Option String
  pub sort_order : ℤ
  pub revision : ℕ

pub record CollectionUpdate : Type 0 where
  pub encrypted_name : Patch String
  pub icon : Patch String
  pub color : Patch ℤ
  pub parent_uuid : Patch String
  pub sort_order : Patch ℤ
  pub revision : Patch ℕ
  pub is_deleted : Patch Bool

-- Validation of a body: normalised, or refused.
unfoldable pub validate_collection_create : CollectionCreate → Option CollectionCreate
validate_collection_create b =
    let parent_uuid = normalize_folder_id b.parent_uuid in
    if length_within 1 64 b.uuid
      && leb 1 (str_len b.encrypted_name)
      && leb (str_len b.icon) max_collection_icon_chars
      && check_optional (length_within 0 64) parent_uuid
      && leb 1 b.revision
    then some (record b { parent_uuid = parent_uuid })
    else none

unfoldable pub validate_collection_update : CollectionUpdate → Option CollectionUpdate
validate_collection_update b =
    let parent_uuid = normalize_patch b.parent_uuid in
    if check_patch (length_within 0 max_collection_icon_chars) b.icon
      && check_patch (length_within 0 64) parent_uuid
      && check_patch (leb 1) b.revision
    then some (record b { parent_uuid = parent_uuid })
    else none

pub record CollectionResponse : Type 0 where
  pub uuid : String
  pub encrypted_name : String
  pub icon : String
  pub color : Option ℤ
  pub parent_uuid : Option String
  pub sort_order : ℤ
  pub revision : ℕ
  pub is_deleted : Bool
  pub created_at : ℕ
  pub updated_at : ℕ

-- `from_attributes`
unfoldable pub collection_response : Collection → CollectionResponse
collection_response c = record {
  uuid = c.uuid;
  encrypted_name = c.encrypted_name;
  icon = c.icon;
  color = c.color;
  parent_uuid = c.parent_uuid;
  sort_order = c.sort_order;
  revision = c.revision;
  is_deleted = c.is_deleted;
  created_at = c.created_at;
  updated_at = c.updated_at;
}
