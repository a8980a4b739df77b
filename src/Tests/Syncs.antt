-- ===== src/Tests/Syncs.antt =====
-- Pushed items on concrete rows.
use open_key_server.Base.{
  ◌≡◌, refl, String, true, false, none, some, List, [], ◌∷◌, ◌++◌, any, if◌then◌else◌,
}
use open_key_server.Models.Vault.{Entry}
use open_key_server.Api.Sync.Response.{merge_by_uuid, merge_by_uuid_lem, IsDistinct, is_seen}
use open_key_server.Base.Int.{pos}
use open_key_server.Schemas.Sync.{SyncCollectionItem, SyncEntryItem}
use open_key_server.Api.Sync.{upsert_collection_row, upsert_entry_row}
use open_key_server.Api.Sync.Merge.{
  LastWriterWins, HoldsEntry, HoldsCollection, TouchesEntry, TouchesCollection,
  upsert_entry-LastWriterWins, upsert_collection-LastWriterWins,
}
use open_key_server.Tests.Data.{env, mail, logins}

abbrev pushed_entry : SyncEntryItem
pushed_entry = record {
  uuid = "mail";
  collection_uuid = none;
  encrypted_payload = "p2";
  revision = 2;
  is_deleted = false;
}

abbrev pushed_collection : SyncCollectionItem
pushed_collection = record {
  uuid = "logins";
  encrypted_name = "other";
  icon = "folder";
  color = none;
  parent_uuid = none;
  sort_order = pos 0;
  revision = 1;
  is_deleted = false;
}

upsert_entry-LastWriterWins_example :
    LastWriterWins
      (λ e. e.revision)
      (HoldsEntry pushed_entry)
      (TouchesEntry env.now mail)
      mail
      2
      (upsert_entry_row env (some mail) 1 pushed_entry)
upsert_entry-LastWriterWins_example = upsert_entry-LastWriterWins env mail 1 pushed_entry

upsert_collection-LastWriterWins_example :
    LastWriterWins
      (λ c. c.revision)
      (HoldsCollection pushed_collection)
      (TouchesCollection env.now logins)
      logins
      1
      (upsert_collection_row env (some logins) 1 pushed_collection)
upsert_collection-LastWriterWins_example =
    upsert_collection-LastWriterWins env logins 1 pushed_collection

abbrev uuid_of : Entry → String
uuid_of e = e.uuid

distinct : IsDistinct uuid_of (mail ∷ [])
unfolding any
distinct = (refl, tt)

merge_by_uuid_lem_example :
    let merged = merge_by_uuid uuid_of (mail ∷ []) (mail ∷ []) in
    IsDistinct uuid_of merged
    × ((u : String)
        → is_seen uuid_of u merged
          ≡ (if is_seen uuid_of u (mail ∷ []) then true else is_seen uuid_of u (mail ∷ [])))
    × ((rest : List Entry) × (merged ≡ (mail ∷ []) ++ rest))
merge_by_uuid_lem_example = merge_by_uuid_lem uuid_of (mail ∷ []) (mail ∷ []) distinct
