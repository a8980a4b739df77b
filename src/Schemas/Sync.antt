-- ===== src/Schemas/Sync.antt =====
-- app/schemas/sync.py: what a client pushes and what it is answered. A body stands for the JSON with
-- its defaults put in; lists that were left out are empty.
use open_key_server.Base.{
  ℕ, String, Bool, ◌&&◌, Option, none, some, List, [], ◌∷◌, leb, if◌then◌else◌,
}
use open_key_server.Base.Int.{ℤ}
use open_key_server.Schemas.Attachments.{AttachmentResponse, max_attachment_bytes}
use open_key_server.Schemas.Collections.{CollectionResponse}
use open_key_server.Schemas.Entries.{EntryResponse}
use open_key_server.Schemas.Fields.{length_within, check_optional}
use open_key_server.Schemas.VaultIds.{normalize_folder_id, max_collection_icon_chars}
use open_key_server.Text.{str_len}

pub record SyncCollectionItem : Type 0 where
  pub uuid : String
  pub encrypted_name : String
  pub icon : String
  pub color : Option ℤ
  pub parent_uuid : Option String
  pub sort_order : ℤ
  pub revision : ℕ
  pub is_deleted : Bool

pub record SyncEntryItem : Type 0 where
  pub uuid : String
  pub collection_uuid : Option String
  pub encrypted_payload : String
  pub revision : ℕ
  pub is_deleted : Bool

pub record SyncAttachmentItem : Type 0 where
  pub uuid : String
  pub entry_uuid : String
  pub filename : String
  pub size_bytes : ℕ
  pub content_type : Option String
  pub revision : ℕ
  pub is_deleted : Bool
  pub encrypted_blob : String

pub record SyncRequest : Type 0 where
  pub since_revision : Option ℕ
  pub collections : List SyncCollectionItem
  pub entries : List SyncEntryItem
  pub attachments : List SyncAttachmentItem

-- Validation: normalised, or refused.
unfoldable pub validate_collection_item : SyncCollectionItem → Option SyncCollectionItem
validate_collection_item b =
    let parent_uuid = normalize_folder_id b.parent_uuid in
    if length_within 1 64 b.uuid
      && leb 1 (str_len b.encrypted_name)
      && leb (str_len b.icon) max_collection_icon_chars
      && check_optional (length_within 0 64) parent_uuid
      && leb 1 b.revision
    then some (record b { parent_uuid = parent_uuid })
    else none

unfoldable pub validate_entry_item : SyncEntryItem → Option SyncEntryItem
validate_entry_item b =
    let collection_uuid = normalize_folder_id b.collection_uuid in
    if length_within 1 64 b.uuid
      && check_optional (length_within 0 64) collection_uuid
      && leb 1 (str_len b.encrypted_payload)
      && leb 1 b.revision
    then some (record b { collection_uuid = collection_uuid })
    else none

unfoldable pub validate_attachment_item : SyncAttachmentItem → Option SyncAttachmentItem
validate_attachment_item b =
    if length_within 1 64 b.uuid
      && length_within 1 64 b.entry_uuid
      && length_within 1 512 b.filename
      && leb b.size_bytes max_attachment_bytes
      && check_optional (length_within 0 255) b.content_type
      && leb 1 b.revision
      && leb 1 (str_len b.encrypted_blob)
    then some b
    else none

-- Every item of a list, or nothing.
validate_items : {A : Type 0} → (A → Option A) → List A → Option (List A)
validate_items check [] = some []
validate_items check (x ∷ xs) = elim (check x) [
  | none ↦ none
  | some y ↦ elim (validate_items check xs) [ none ↦ none | some ys ↦ some (y ∷ ys) ]
]

unfoldable pub validate_sync_request : SyncRequest → Option SyncRequest
unfolding validate_items validate_collection_item validate_entry_item validate_attachment_item
validate_sync_request b = elim (validate_items validate_collection_item b.collections) [
  | none ↦ none
  | some collections ↦ elim (validate_items validate_entry_item b.entries) [
    | none ↦ none
    | some entries ↦ elim (validate_items validate_attachment_item b.attachments) [
      | none ↦ none
      | some attachments ↦
          some
            (record b { collections = collections; entries = entries; attachments = attachments })
    ]
  ]
]

pub record SyncResponse : Type 0 where
  pub collections : List CollectionResponse
  pub entries : List EntryResponse
  pub attachments : List AttachmentResponse
  pub server_revision : ℕ
