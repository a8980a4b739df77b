-- ===== src/Schemas/Entries.antt =====
-- app/schemas/entry.py
use open_key_server.Base.{ℕ, String, Bool, ◌&&◌, Option, leb, if◌then◌else◌, none, some}
use open_key_server.Models.Vault.{Entry}
use open_key_server.Schemas.VaultIds.{normalize_folder_id}
use open_key_server.Schemas.Fields.{
  Patch, length_within, check_optional, check_patch, normalize_patch,
}
use open_key_server.Text.{str_len}

pub record EntryCreate : Type 0 where
  pub uuid : String
  pub collection_uuid : Option String
  pub encrypted_payload : String
  pub revision : ℕ

pub record EntryUpdate : Type 0 where
  pub collection_uuid : Patch String
  pub encrypted_payload : Patch String
  pub revision : Patch ℕ
  pub is_deleted : Patch Bool

-- Validation of a body: normalised, or refused.
unfoldable pub validate_entry_create : EntryCreate → Option EntryCreate
validate_entry_create b =
    let collection_uuid = normalize_folder_id b.collection_uuid in
    if length_within 1 64 b.uuid
      && check_optional (length_within 0 64) collection_uuid
      && leb 1 (str_len b.encrypted_payload)
      && leb 1 b.revision
    then some (record b { collection_uuid = collection_uuid })
    else none

unfoldable pub validate_entry_update : EntryUpdate → Option EntryUpdate
validate_entry_update b =
    let collection_uuid = normalize_patch b.collection_uuid in
    if check_patch (length_within 0 64) collection_uuid && check_patch (leb 1) b.revision
    then some (record b { collection_uuid = collection_uuid })
    else none

pub record EntryResponse : Type 0 where
  pub uuid : String
  pub collection_uuid : Option String
  pub encrypted_payload : String
  pub revision : ℕ
  pub is_deleted : Bool
  pub created_at : ℕ
  pub updated_at : ℕ

-- `from_attributes`
unfoldable pub entry_response : Entry → EntryResponse
entry_response e = record {
  uuid = e.uuid;
  collection_uuid = e.collection_uuid;
  encrypted_payload = e.encrypted_payload;
  revision = e.revision;
  is_deleted = e.is_deleted;
  created_at = e.created_at;
  updated_at = e.updated_at;
}
