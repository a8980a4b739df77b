-- ===== src/Tests/Pulls.antt =====
-- Whole syncs on concrete requests.
use open_key_server.Base.{◌≡◌, refl, ℕ, ◌+◌, false, none, some, [], ◌∷◌, arith, any, filter}
use open_key_server.Base64.{b64decode, digit_value}
use open_key_server.Models.{Db}
use open_key_server.Models.Vault.{Entry}
use open_key_server.Orm.Session.{ok, get_db}
use open_key_server.Orm.Integrity.{IsConsistent}
use open_key_server.Orm.Tables.{select_all}
use open_key_server.Schemas.Attachments.{from_orm_attachment}
use open_key_server.Schemas.Entries.{entry_response}
use open_key_server.Schemas.Sync.{
  SyncEntryItem, SyncAttachmentItem, SyncRequest, SyncResponse, validate_attachment_item,
}
use open_key_server.Double.{round_half_even, scale_of, nearest, times, floor}
use open_key_server.Api.Sync.{upsert_attachment_row, kept}
use open_key_server.Api.Sync.Attachments.{
  AttachmentOutcome, IsStored, item_of, upsert_attachment_row_lem,
  upsert_attachment_row-from_orm_attachment,
}
use open_key_server.Api.Sync.Cursor.{since_to_datetime, datetime_to_revision}
use open_key_server.Api.Sync.Cursor.Exact.{IsRepresentable, since_to_datetime-datetime_to_revision}
use open_key_server.Api.Sync.Endpoint.{sync_vault, pull, pull_all, latest, latest_of}
use open_key_server.Api.Sync.Endpoint.CaughtUp.{IsTimely, quiet, sync_vault-sync_vault}
use open_key_server.Api.Sync.Endpoint.Synced.{SyncOutcome, sync_vault-Synced}
use open_key_server.Api.Sync.Push.{push, push_items, winners}
use open_key_server.Api.Sync.Response.{merge_by_uuid}
use open_key_server.Tests.Data.{env, ada, mail, photo, seed, seed-IsConsistent}

abbrev keys : ℕ → ℕ
keys k = 60 + k

abbrev photo_item : SyncAttachmentItem
photo_item = record {
  uuid = "photo";
  entry_uuid = "mail";
  filename = "b.png";
  size_bytes = 3;
  content_type = none;
  revision = 2;
  is_deleted = false;
  encrypted_blob = "TWFu";
}

abbrev new_mail : SyncEntryItem
new_mail = record {
  uuid = "mail";
  collection_uuid = none;
  encrypted_payload = "p2";
  revision = 2;
  is_deleted = false;
}

abbrev everything : SyncRequest
everything = record {
  since_revision = none;
  collections = [];
  entries = new_mail ∷ [];
  attachments = photo_item ∷ [];
}

man : b64decode "TWFu" ≡ some (77 ∷ 97 ∷ 110 ∷ [])
unfolding b64decode digit_value
man = refl

sync_vault-Synced_example :
    SyncOutcome env keys ada everything seed (get_db (sync_vault env keys ada everything) seed)
sync_vault-Synced_example = sync_vault-Synced env keys ada everything seed seed-IsConsistent

this_year : IsRepresentable 1764159600123457
this_year = record { from = omega arith; until = omega arith }

since_to_datetime-datetime_to_revision_example :
    (datetime_to_revision (some 1764159600123457) ≡ 1764159600123457)
    × (since_to_datetime (datetime_to_revision (some 1764159600123457)) ≡ ok 1764159600123457)
since_to_datetime-datetime_to_revision_example =
    since_to_datetime-datetime_to_revision 1764159600123457 this_year

upsert_attachment_row_lem_example :
    AttachmentOutcome env.now photo_item photo (upsert_attachment_row env (some photo) 1 photo_item)
upsert_attachment_row_lem_example = upsert_attachment_row_lem env photo 1 photo_item

photo-IsStored : IsStored photo
photo-IsStored = record {
  uuid = (omega arith, omega arith);
  entry_uuid = (omega arith, omega arith);
  filename = (omega arith, omega arith);
  content_type = λ text e. ground arith;
  revision = omega arith;
  not_empty = omega arith;
  bytes = omega arith;
  within = omega arith;
  sized = refl;
}

upsert_attachment_row-from_orm_attachment_example :
    (validate_attachment_item (item_of (from_orm_attachment photo))
      ≡ some (item_of (from_orm_attachment photo)))
    × (upsert_attachment_row env (some photo) 1 (item_of (from_orm_attachment photo))
        ≡ ok (kept photo))
upsert_attachment_row-from_orm_attachment_example =
    upsert_attachment_row-from_orm_attachment env photo 1 photo-IsStored

abbrev recent : Entry
recent = record mail { updated_at = 1764159600123457 }

abbrev modern : Db
modern = record seed { collections = []; entries = recent ∷ []; attachments = [] }

modern-IsConsistent : IsConsistent modern
unfolding any
modern-IsConsistent = record {
  users_keys = (refl, (refl, tt));
  refresh_tokens_keys = (refl, tt);
  collections_keys = tt;
  entries_keys = (refl, tt);
  attachments_keys = tt;
  orgs_keys = (refl, tt);
  org_members_keys = (refl, (refl, tt));
  org_collections_keys = tt;
  org_entries_keys = tt;
  shares_keys = (refl, tt);
}

abbrev all_of_it : SyncResponse
all_of_it = record {
  collections = [];
  entries = entry_response recent ∷ [];
  attachments = [];
  server_revision = 1764159600123457;
}

first_pull : get_db (sync_vault env keys ada (quiet 0)) modern ≡ (ok all_of_it, modern)
unfolding sync_vault get_db since_to_datetime push select_all push_items filter any pull_all pull
    latest merge_by_uuid datetime_to_revision winners latest_of floor times nearest round_half_even
    scale_of
first_pull = refl

modern-IsTimely : IsTimely env keys ada modern
unfolding filter
modern-IsTimely = record { collections = tt; entries = (this_year, tt); attachments = tt }

sync_vault-sync_vault_example : get_db (sync_vault env keys ada (quiet 1764159600123457)) modern ≡ (
  ok (record {
    collections = [];
    entries = [];
    attachments = [];
    server_revision = 1764159600123457;
  }),
  modern,
)
sync_vault-sync_vault_example =
    sync_vault-sync_vault env env keys keys ada (quiet 0) modern modern-IsConsistent all_of_it
      modern first_pull modern-IsTimely
