-- ===== src/Api/Sync/Endpoint.antt =====
-- POST /sync of app/api/sync.py: push, then pull, in one session.

pub mod Lawful
pub mod Pull
pub mod Integrity
pub mod Synced
pub mod Times
pub mod CaughtUp
use open_key_server.Base.{
  ℕ, ◌+◌, ◌==◌, nat_eq, String, ◌&&◌, Option, none, some, List, [], ◌∷◌, map, ltb, max, length,
  if◌then◌else◌,
}
use open_key_server.Models.Account.{User}
use open_key_server.Models.Vault.{Collection, Entry, Attachment}
use open_key_server.Orm.Session.{M, ok, pure, lift, ◌>>=◌}
use open_key_server.Orm.Tables.{Table, select_all}
use open_key_server.Orm.Schema.{collection_table, entry_table, attachment_table}
use open_key_server.Schemas.Sync.{
  SyncCollectionItem, SyncEntryItem, SyncAttachmentItem, SyncRequest, SyncResponse,
}
use open_key_server.Schemas.Collections.{collection_response}
use open_key_server.Schemas.Entries.{entry_response}
use open_key_server.Schemas.Attachments.{from_orm_attachment}
use open_key_server.Api.Request.{Env}
use open_key_server.Api.Sync.{upsert_collection_row, upsert_entry_row, upsert_attachment_row}
use open_key_server.Api.Sync.Cursor.{since_to_datetime, datetime_to_revision}
use open_key_server.Api.Sync.Push.{Pushing, Pushed, push, winners}
use open_key_server.Api.Sync.Response.{merge_by_uuid}

-- The request reads its clock once, and draws the key of a row that the item at `k` adds as `new_id k`.
abbrev env_at : Env → (ℕ → ℕ) → ℕ → Env
env_at env new_id k = record env { new_id = new_id k }

abbrev pub collections_of : Env → (ℕ → ℕ) → ℕ → Pushing Collection SyncCollectionItem
collections_of env new_id user_id = record {
  user_of = λ c. c.user_id;
  uuid = λ c. c.uuid;
  updated_at = λ c. c.updated_at;
  item_uuid = λ item. item.uuid;
  upsert = λ k old item. ok (upsert_collection_row (env_at env new_id k) old user_id item);
}

abbrev pub entries_of : Env → (ℕ → ℕ) → ℕ → Pushing Entry SyncEntryItem
entries_of env new_id user_id = record {
  user_of = λ e. e.user_id;
  uuid = λ e. e.uuid;
  updated_at = λ e. e.updated_at;
  item_uuid = λ item. item.uuid;
  upsert = λ k old item. ok (upsert_entry_row (env_at env new_id k) old user_id item);
}

abbrev pub attachments_of : Env → (ℕ → ℕ) → ℕ → Pushing Attachment SyncAttachmentItem
attachments_of env new_id user_id = record {
  user_of = λ a. a.user_id;
  uuid = λ a. a.uuid;
  updated_at = λ a. a.updated_at;
  item_uuid = λ item. item.uuid;
  upsert = λ k old item. upsert_attachment_row (env_at env new_id k) old user_id item;
}

-- `func.max(updated_at)`, which is NULL over no rows.
abbrev pub later : ℕ → Option ℕ → Option ℕ
later n none = some n
later n (some m) = some (max n m)

unfoldable pub latest_of : {R : Type 0} → (R → ℕ) → List R → Option ℕ
latest_of updated_at [] = none
latest_of updated_at (r ∷ rows) = later (updated_at r) (latest_of updated_at rows)

module _ {R Item : Type 0} ⦃t : Table R⦄ (p : Pushing R Item) (user_id : ℕ) where
  -- The user's rows that were changed after the cursor, and then the winners.
  unfoldable pub pull : ℕ → Pushed R → M (List R)
  pull since held = do
    rows ← select_all (λ r. p.user_of r == user_id && ltb since (p.updated_at r))
    pure (merge_by_uuid p.uuid rows (winners p held.tracked held.conflicts))

  unfoldable pub latest : M (Option ℕ)
  latest = do rows ← select_all (λ r. p.user_of r == user_id); pure (latest_of p.updated_at rows)

-- `body.since_revision or 0`
abbrev pub since_of : SyncRequest → ℕ
since_of body = elim body.since_revision [ none ↦ 0 | some since ↦ since ]

abbrev pub sync_response : List Collection → List Entry → List Attachment → ℕ → SyncResponse
sync_response collections entries attachments revision = record {
  collections = map collection_response collections;
  entries = map entry_response entries;
  attachments = map from_orm_attachment attachments;
  server_revision = revision;
}

abbrev pub cursor_of : Option ℕ → Option ℕ → Option ℕ → ℕ
cursor_of collection_at entry_at attachment_at =
    max (max (datetime_to_revision collection_at) (datetime_to_revision entry_at))
      (datetime_to_revision attachment_at)

module _ (env : Env) (new_id : ℕ → ℕ) (user : User) where
  abbrev pub collections_p : Pushing Collection SyncCollectionItem
  collections_p = collections_of env new_id user.id

  abbrev pub entries_p : Pushing Entry SyncEntryItem
  entries_p = entries_of env new_id user.id

  abbrev pub attachments_p : Pushing Attachment SyncAttachmentItem
  attachments_p = attachments_of env new_id user.id

  unfoldable pub pull_all :
      ℕ → Pushed Collection → Pushed Entry → Pushed Attachment → M SyncResponse
  pull_all since held_collections held_entries held_attachments = do
    collections ← pull collections_p user.id since held_collections
    entries ← pull entries_p user.id since held_entries
    attachments ← pull attachments_p user.id since held_attachments
    collection_at ← latest collections_p user.id
    entry_at ← latest entries_p user.id
    attachment_at ← latest attachments_p user.id
    pure (
        sync_response collections entries attachments
          (cursor_of collection_at entry_at attachment_at))

  unfoldable pub sync_vault : SyncRequest → M SyncResponse
  sync_vault body = do
    since ← lift (since_to_datetime (since_of body))
    held_collections ← push collections_p user.id 0 body.collections
    held_entries ← push entries_p user.id (length body.collections) body.entries
    held_attachments ←
        push attachments_p user.id (length body.collections + length body.entries) body.attachments
    pull_all since held_collections held_entries held_attachments
