-- ===== src/Tests/Vaults.antt =====
-- Vaults on concrete requests.
use open_key_server.Base.{◌≡◌, ◌≢◌, arith, none, some, List, [], ◌∷◌}
use open_key_server.Base.Int.{pos}
use open_key_server.Orm.Session.{get_db}
use open_key_server.Orm.Keys.{collection_key, entry_key, attachment_key}
use open_key_server.Orm.Changes.{Creates, Updates}
use open_key_server.Orm.Effects.{Writes}
use open_key_server.Schemas.Collections.{CollectionCreate, CollectionUpdate}
use open_key_server.Schemas.Entries.{EntryCreate, EntryUpdate}
use open_key_server.Api.Collections.{create_collection, update_collection, delete_collection}
use open_key_server.Api.Collections.Effects as CollectionEffects
use open_key_server.Api.Collections.Effects.{
  create_collection-Writes, update_collection-Writes, delete_collection-Writes,
}
use open_key_server.Api.Entries.{create_entry, update_entry, delete_entry}
use open_key_server.Api.Entries.Outcomes as EntryOutcomes
use open_key_server.Api.Entries.Outcomes.{CreatesFiled, UpdatesFiled}
use open_key_server.Api.Entries.Effects.{
  create_entry-Writes, update_entry-Writes, delete_entry-Writes,
}
use open_key_server.Api.Attachments.{Upload, create_attachment}
use open_key_server.Api.Attachments.Effects as AttachmentEffects
use open_key_server.Api.Attachments.Effects.{CreatesUploaded, create_attachment-Writes}
use open_key_server.Api.Vault
use open_key_server.Api.Vault.{holding, creates_entry, deletes_collection, serve_all-keeps_vault}
use open_key_server.Tests.Data.{env, ada, bob, seed, seed-IsConsistent}

abbrev note : EntryCreate
note = record {
  uuid = "note";
  collection_uuid = some "logins";
  encrypted_payload = "p";
  revision = 1;
}

abbrev bobs_note : EntryCreate
bobs_note = record {
  uuid = "mail";
  collection_uuid = none;
  encrypted_payload = "other";
  revision = 3;
}

abbrev moved : EntryUpdate
moved = record {
  collection_uuid = some none;
  encrypted_payload = none;
  revision = some (some 2);
  is_deleted = none;
}

abbrev cards : CollectionCreate
cards = record {
  uuid = "cards";
  encrypted_name = "n";
  icon = "card";
  color = none;
  parent_uuid = none;
  sort_order = pos 1;
  revision = 1;
}

abbrev renamed : CollectionUpdate
renamed = record {
  encrypted_name = some (some "m");
  icon = none;
  color = none;
  parent_uuid = none;
  sort_order = none;
  revision = some (some 2);
  is_deleted = none;
}

abbrev scan : Upload
scan = record {
  uuid = "scan";
  entry_uuid = "mail";
  filename = "s.pdf";
  size_bytes = 3;
  revision = 1;
  content_type = none;
  file_content_type = some "application/pdf";
  reads = (1 ∷ 2 ∷ []) ∷ (3 ∷ []) ∷ [];
}

abbrev bobs_requests : List Vault.Request
bobs_requests = creates_entry env bob bobs_note ∷ deletes_collection env bob "logins" ∷ []

not_ada : bob.id ≢ ada.id
not_ada e = ground (arith, e)

serve_all-keeps_vault_example :
    holding 1 "mail" (Vault.serve_all bobs_requests seed) ≡ holding 1 "mail" seed
serve_all-keeps_vault_example =
    serve_all-keeps_vault 1 "mail" bobs_requests seed seed-IsConsistent (not_ada, (not_ada, tt))

create_entry-Writes_example :
    Writes entry_key
      (1, "note")
      (EntryOutcomes.DeniesCreation 1 note seed)
      (CreatesFiled env ada note seed)
      (λ e. e)
      seed
      (get_db (create_entry env ada note) seed)
create_entry-Writes_example = create_entry-Writes env ada seed seed-IsConsistent note

update_entry-Writes_example :
    Writes entry_key
      (1, "mail")
      (EntryOutcomes.DeniesUpdate 1 "mail" moved seed)
      (UpdatesFiled env ada moved seed)
      (λ e. e)
      seed
      (get_db (update_entry env ada "mail" moved) seed)
update_entry-Writes_example = update_entry-Writes env ada seed seed-IsConsistent "mail" moved

delete_entry-Writes_example :
    Writes entry_key
      (1, "mail")
      (EntryOutcomes.NotFound 1 "mail" seed)
      (Updates EntryOutcomes.is_live (EntryOutcomes.IsTombstone 5000000))
      (λ e. tt)
      seed
      (get_db (delete_entry env ada "mail") seed)
delete_entry-Writes_example = delete_entry-Writes env ada seed seed-IsConsistent "mail"

create_collection-Writes_example :
    Writes collection_key
      (1, "cards")
      (CollectionEffects.DeniesCreation 1 cards seed)
      (Creates (CollectionEffects.IsNewCollection env ada cards))
      (λ c. c)
      seed
      (get_db (create_collection env ada cards) seed)
create_collection-Writes_example = create_collection-Writes env ada seed seed-IsConsistent cards

update_collection-Writes_example :
    Writes collection_key
      (1, "logins")
      (CollectionEffects.NotFound 1 "logins" seed)
      (Updates CollectionEffects.is_live (CollectionEffects.IsPatched 5000000 renamed))
      (λ c. c)
      seed
      (get_db (update_collection env ada "logins" renamed) seed)
update_collection-Writes_example =
    update_collection-Writes env ada seed seed-IsConsistent "logins" renamed

delete_collection-Writes_example :
    Writes collection_key
      (1, "logins")
      (CollectionEffects.NotFound 1 "logins" seed)
      (Updates CollectionEffects.is_live (CollectionEffects.IsTombstone 5000000))
      (λ c. tt)
      seed
      (get_db (delete_collection env ada "logins") seed)
delete_collection-Writes_example = delete_collection-Writes env ada seed seed-IsConsistent "logins"

create_attachment-Writes_example :
    Writes attachment_key
      (1, "scan")
      (AttachmentEffects.DeniesUpload 1 scan seed)
      (CreatesUploaded env ada scan)
      (λ a. a)
      seed
      (get_db (create_attachment env ada scan) seed)
create_attachment-Writes_example = create_attachment-Writes env ada seed seed-IsConsistent scan
