-- ===== src/Api/Sync.antt =====
-- app/api/sync.py: the merge of pushed items into the stored rows, by revision.
pub mod Merge
pub mod Response
pub mod Cursor
pub mod Attachments
pub mod Push
pub mod Endpoint
use open_key_server.Base.{
  ℕ, ◌==◌, nat_eq, string_eq, bool_eq, option_eq, String, Bool, true, false, not, ◌&&◌, Option,
  none, some, List, [], ◌∷◌, ◌++◌, any, ltb, length, list_eq, if◌then◌else◌,
}
use open_key_server.Base.Int.{ℤ, int_eq}
use open_key_server.Models.Vault.{Collection, Entry, Attachment}
use open_key_server.Schemas.Sync.{SyncCollectionItem, SyncEntryItem, SyncAttachmentItem}
use open_key_server.Schemas.Attachments.{max_attachment_bytes}
use open_key_server.Base64.{b64decode}
use open_key_server.Text.{show}
use open_key_server.Orm.Session.{Result, ok, err, http}
use Prim.Native.String.{◌++◌ as append}
use open_key_server.Api.Request.{Env}

-- What an upsert makes of the stored row: the row as it is afterwards, whether it is to be added, whether
-- it was assigned to, and whether the item lost against it.
pub record Upserted (R : Type 0) : Type 0 where
  pub row : R
  pub is_new : Bool
  pub is_changed : Bool
  pub is_lost : Bool

module _ {R : Type 0} where
  abbrev pub inserted : R → Upserted R
  inserted r = record { row = r; is_new = true; is_changed = false; is_lost = false }

  abbrev pub kept : R → Upserted R
  kept r = record { row = r; is_new = false; is_changed = false; is_lost = false }

  abbrev pub overwritten : R → Upserted R
  overwritten r = record { row = r; is_new = false; is_changed = true; is_lost = false }

  abbrev pub lost : R → Upserted R
  lost r = record { row = r; is_new = false; is_changed = false; is_lost = true }

abbrev pub new_collection : Env → ℕ → SyncCollectionItem → Collection
new_collection env user_id item = record {
  id = env.new_id;
  user_id = user_id;
  uuid = item.uuid;
  encrypted_name = item.encrypted_name;
  icon = item.icon;
  color = item.color;
  parent_uuid = item.parent_uuid;
  sort_order = item.sort_order;
  revision = item.revision;
  is_deleted = item.is_deleted;
  created_at = env.db_now;
  updated_at = env.db_now;
}

abbrev pub same_collection : SyncCollectionItem → Collection → Bool
same_collection item c =
    c.encrypted_name == item.encrypted_name
    && c.icon == item.icon
    && c.color == item.color
    && c.parent_uuid == item.parent_uuid
    && c.sort_order == item.sort_order
    && c.is_deleted == item.is_deleted

-- The assignments of the two branches that the item wins; at the same revision, the revision is as it
-- was.
abbrev pub won_collection : ℕ → SyncCollectionItem → Collection → Collection
won_collection now item c = record c {
  encrypted_name = item.encrypted_name;
  icon = item.icon;
  color = item.color;
  parent_uuid = item.parent_uuid;
  sort_order = item.sort_order;
  is_deleted = item.is_deleted;
  updated_at = now;
}

unfoldable pub upsert_collection_row :
    Env → Option Collection → ℕ → SyncCollectionItem → Upserted Collection
upsert_collection_row env none user_id item = inserted (new_collection env user_id item)
upsert_collection_row env (some existing) user_id item =
    if ltb existing.revision item.revision
    then overwritten (record (won_collection env.now item existing) { revision = item.revision })
    else if item.revision == existing.revision
    then (if same_collection item existing
        then kept existing
        else overwritten (won_collection env.now item existing))
    else lost existing

abbrev pub new_entry : Env → ℕ → SyncEntryItem → Entry
new_entry env user_id item = record {
  id = env.new_id;
  user_id = user_id;
  uuid = item.uuid;
  collection_uuid = item.collection_uuid;
  encrypted_payload = item.encrypted_payload;
  revision = item.revision;
  is_deleted = item.is_deleted;
  created_at = env.db_now;
  updated_at = env.db_now;
}

abbrev pub same_entry : SyncEntryItem → Entry → Bool
same_entry item e =
    e.collection_uuid == item.collection_uuid
    && e.encrypted_payload == item.encrypted_payload
    && e.is_deleted == item.is_deleted

abbrev pub won_entry : ℕ → SyncEntryItem → Entry → Entry
won_entry now item e = record e {
  collection_uuid = item.collection_uuid;
  encrypted_payload = item.encrypted_payload;
  is_deleted = item.is_deleted;
  updated_at = now;
}

unfoldable pub upsert_entry_row : Env → Option Entry → ℕ → SyncEntryItem → Upserted Entry
upsert_entry_row env none user_id item = inserted (new_entry env user_id item)
upsert_entry_row env (some existing) user_id item =
    if ltb existing.revision item.revision
    then overwritten (record (won_entry env.now item existing) { revision = item.revision })
    else if item.revision == existing.revision
    then (if same_entry item existing
        then kept existing
        else overwritten (won_entry env.now item existing))
    else lost existing

abbrev pub new_attachment : Env → ℕ → SyncAttachmentItem → List ℕ → Attachment
new_attachment env user_id item blob = record {
  id = env.new_id;
  user_id = user_id;
  uuid = item.uuid;
  entry_uuid = item.entry_uuid;
  filename = item.filename;
  size_bytes = item.size_bytes;
  encrypted_blob = blob;
  content_type = item.content_type;
  revision = item.revision;
  is_deleted = item.is_deleted;
  created_at = env.db_now;
  updated_at = env.db_now;
}

abbrev pub same_attachment : SyncAttachmentItem → List ℕ → Attachment → Bool
same_attachment item blob a =
    a.entry_uuid == item.entry_uuid
    && a.filename == item.filename
    && a.size_bytes == item.size_bytes
    && a.encrypted_blob == blob
    && a.content_type == item.content_type
    && a.is_deleted == item.is_deleted

abbrev pub won_attachment : ℕ → SyncAttachmentItem → List ℕ → Attachment → Attachment
won_attachment now item blob a = record a {
  entry_uuid = item.entry_uuid;
  filename = item.filename;
  size_bytes = item.size_bytes;
  encrypted_blob = blob;
  content_type = item.content_type;
  is_deleted = item.is_deleted;
  updated_at = now;
}

-- The checks, given what the blob decodes to. `size_bytes` is a required number of the schema, so the
-- branch of the code for one that is not given is never taken.
abbrev pub check_blob : SyncAttachmentItem → Option (List ℕ) → Result (List ℕ)
check_blob item none = err (http 400 (append "Invalid base64 for attachment " item.uuid))
check_blob item (some blob) =
    if ltb max_attachment_bytes (length blob)
    then err (
        http 413 (
          append "Attachment " (
            append item.uuid
              (append " exceeds " (append (show max_attachment_bytes) " byte limit")))))
    else if item.size_bytes == length blob
    then ok blob
    else err (http 400 (append "size_bytes mismatch for attachment " item.uuid))

unfoldable pub checked_blob : SyncAttachmentItem → Result (List ℕ)
checked_blob item = check_blob item (b64decode item.encrypted_blob)

-- What the item makes of the stored row, given its blob.
unfoldable pub upsert_blob :
    Env → Option Attachment → ℕ → SyncAttachmentItem → List ℕ → Upserted Attachment
upsert_blob env none user_id item blob = inserted (new_attachment env user_id item blob)
upsert_blob env (some existing) user_id item blob =
    if ltb existing.revision item.revision
    then overwritten
        (record (won_attachment env.now item blob existing) { revision = item.revision })
    else if item.revision == existing.revision
    then (if same_attachment item blob existing
        then kept existing
        else overwritten (won_attachment env.now item blob existing))
    else lost existing

abbrev pub upsert_checked :
    Env
    → Option Attachment
    → ℕ
    → SyncAttachmentItem
    → Result (List ℕ)
    → Result (Upserted Attachment)
upsert_checked env existing user_id item (err e) = err e
upsert_checked env existing user_id item (ok blob) = ok (upsert_blob env existing user_id item blob)

unfoldable pub upsert_attachment_row :
    Env → Option Attachment → ℕ → SyncAttachmentItem → Result (Upserted Attachment)
upsert_attachment_row env existing user_id item =
    upsert_checked env existing user_id item (checked_blob item)
