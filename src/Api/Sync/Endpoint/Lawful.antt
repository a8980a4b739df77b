-- ===== src/Api/Sync/Endpoint/Lawful.antt =====
-- The three upserts of app/api/sync.py leave a row under the item's uuid, with its key and owner.
use open_key_server.Base.{
  ℕ, ◌≡◌, refl, sym, ap, ◌∙◌, Bool, true, false, Option, none, some, List, inl, inr, subst, ltb,
  ◌==◌, nat_eq, if◌then◌else◌,
}
use open_key_server.Models.Vault.{Collection, Entry, Attachment}
use open_key_server.Orm.Session.{ok, Result-cases}
use open_key_server.Orm.Tables.{Table}
use open_key_server.Orm.Schema.{collection_table, entry_table, attachment_table}
use open_key_server.Schemas.Sync.{SyncCollectionItem, SyncEntryItem, SyncAttachmentItem}
use open_key_server.Api.Request.{Env}
use open_key_server.Api.Sync.{
  Upserted, upsert_collection_row, upsert_entry_row, upsert_attachment_row, upsert_blob,
  checked_blob, upsert_checked, kept, lost, overwritten, same_collection, same_entry,
  same_attachment, won_collection, won_entry, won_attachment,
}
use open_key_server.Api.Sync.Push.{Pushing}
use open_key_server.Api.Sync.Push.Loop.{IsLawful, Fits, KeepsKey}
use open_key_server.Api.Sync.Endpoint.{collections_of, entries_of, attachments_of}

of_ok : {A : Type 0} {a b : A} → ok a ≡ ok b → a ≡ b
of_ok h = cc

-- What holds of each of the outcomes of an upsert into a stored row holds of what it comes to.
branches :
    {R : Type 0} (P : Upserted R → Type 0) (newer level same : Bool)
    (won kept taken lost : Upserted R)
    → P won
    → P kept
    → P taken
    → P lost
    → P (if newer then won else if level then (if same then kept else taken) else lost)
branches P true level same won kept taken lost a b c d = a
branches P false true true won kept taken lost a b c d = b
branches P false true false won kept taken lost a b c d = c
branches P false false same won kept taken lost a b c d = d

-- What an upsert of the item must leave of the row that was there.
abbrev Leaves :
    {R Item : Type 0} (t : Table R) (p : Pushing R Item) → ℕ → Option R → Item → Upserted R → Type 0
Leaves t p user_id old item u =
    (p.uuid u.row ≡ p.item_uuid item)
    × (p.user_of u.row ≡ user_id)
    × KeepsKey ⦃t = t⦄ p user_id old u

module _ (env : Env) (new_id : ℕ → ℕ) (user_id : ℕ) where
  abbrev collections_p : Pushing Collection SyncCollectionItem
  collections_p = collections_of env new_id user_id

  collection_left :
      (env' : Env) (old : Option Collection) (item : SyncCollectionItem)
      → Fits ⦃t = collection_table⦄ collections_p user_id old item
      → Leaves collection_table collections_p user_id old item
          (upsert_collection_row env' old user_id item)
  unfolding upsert_collection_row
  collection_left env' none item f = (refl, refl, refl)
  collection_left env' (some r) item f =
      branches (Leaves collection_table collections_p user_id (some r) item)
        (ltb r.revision item.revision) (item.revision == r.revision) (same_collection item r)
        (overwritten (record (won_collection env'.now item r) { revision = item.revision }))
        (kept r) (overwritten (won_collection env'.now item r)) (lost r)
        (f.0, f.1, (refl, refl, λ h. cc)) (f.0, f.1, (refl, refl, λ h. refl))
        (f.0, f.1, (refl, refl, λ h. cc)) (f.0, f.1, (refl, refl, λ h. refl))

  pub collections-IsLawful : IsLawful ⦃t = collection_table⦄ collections_p user_id
  collections-IsLawful = record {
    kept = λ k old item u f e.
        subst (Leaves collection_table collections_p user_id old item) (of_ok e)
          (collection_left (record env { new_id = new_id k }) old item f);
  }

  abbrev entries_p : Pushing Entry SyncEntryItem
  entries_p = entries_of env new_id user_id

  entry_left :
      (env' : Env) (old : Option Entry) (item : SyncEntryItem)
      → Fits ⦃t = entry_table⦄ entries_p user_id old item
      → Leaves entry_table entries_p user_id old item (upsert_entry_row env' old user_id item)
  unfolding upsert_entry_row
  entry_left env' none item f = (refl, refl, refl)
  entry_left env' (some r) item f =
      branches (Leaves entry_table entries_p user_id (some r) item) (ltb r.revision item.revision)
        (item.revision == r.revision) (same_entry item r)
        (overwritten (record (won_entry env'.now item r) { revision = item.revision })) (kept r)
        (overwritten (won_entry env'.now item r)) (lost r) (f.0, f.1, (refl, refl, λ h. cc))
        (f.0, f.1, (refl, refl, λ h. refl)) (f.0, f.1, (refl, refl, λ h. cc))
        (f.0, f.1, (refl, refl, λ h. refl))

  pub entries-IsLawful : IsLawful ⦃t = entry_table⦄ entries_p user_id
  entries-IsLawful = record {
    kept = λ k old item u f e.
        subst (Leaves entry_table entries_p user_id old item) (of_ok e)
          (entry_left (record env { new_id = new_id k }) old item f);
  }

  abbrev attachments_p : Pushing Attachment SyncAttachmentItem
  attachments_p = attachments_of env new_id user_id

  attachment_left :
      (env' : Env) (old : Option Attachment) (item : SyncAttachmentItem) (blob : List ℕ)
      → Fits ⦃t = attachment_table⦄ attachments_p user_id old item
      → Leaves attachment_table attachments_p user_id old item
          (upsert_blob env' old user_id item blob)
  unfolding upsert_blob
  attachment_left env' none item blob f = (refl, refl, refl)
  attachment_left env' (some r) item blob f =
      branches (Leaves attachment_table attachments_p user_id (some r) item)
        (ltb r.revision item.revision) (item.revision == r.revision) (same_attachment item blob r)
        (overwritten (record (won_attachment env'.now item blob r) { revision = item.revision }))
        (kept r) (overwritten (won_attachment env'.now item blob r)) (lost r)
        (f.0, f.1, (refl, refl, λ h. cc)) (f.0, f.1, (refl, refl, λ h. refl))
        (f.0, f.1, (refl, refl, λ h. cc)) (f.0, f.1, (refl, refl, λ h. refl))

  pub attachments-IsLawful : IsLawful ⦃t = attachment_table⦄ attachments_p user_id
  unfolding upsert_attachment_row
  attachments-IsLawful = record {
    kept = λ k old item u f e.
        let env' : Env = record env { new_id = new_id k } in
        elim (Result-cases (checked_blob item)) [
          | inl (x, bad) ↦
              let impossible = sym (ap (upsert_checked env' old user_id item) bad) ∙ e in cc
          | inr (blob, good) ↦
              subst (Leaves attachment_table attachments_p user_id old item)
                (of_ok (sym (ap (upsert_checked env' old user_id item) good) ∙ e))
                (attachment_left env' old item blob f)
        ];
  }
