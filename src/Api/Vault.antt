-- ===== src/Api/Vault.antt =====
-- The personal vault as a whole: the requests of app/api/collections.py, entries.py, attachments.py and
-- sync.py that write, and whose vault they write to.
use open_key_server.Base.{
  ℕ, String, ◌≡◌, ◌≢◌, ◌==◌, nat_eq, false, arith, refl, sym, ap, ◌∙◌, List, [], ◌∷◌, Option, All,
}
use open_key_server.Models.{Db}
use open_key_server.Models.Account.{User}
use open_key_server.Models.Vault.{Collection, Entry, Attachment}
use open_key_server.Orm.Session.{Error, Result, ok, err, get_db}
use open_key_server.Orm.Integrity.{IsConsistent}
use open_key_server.Orm.Keeps.{Keeps-get_db}
use open_key_server.Orm.Keys.{collection_key, entry_key, attachment_key}
use open_key_server.Orm.Effects.{Writes, row_at, Writes-elsewhere, Writes-rest}
use open_key_server.Schemas.Collections.{CollectionCreate, CollectionUpdate}
use open_key_server.Schemas.Entries.{EntryCreate, EntryUpdate}
use open_key_server.Schemas.Sync.{SyncRequest, SyncResponse}
use open_key_server.Api.Sync.Endpoint.{sync_vault}
use open_key_server.Api.Sync.Endpoint.Integrity.{sync_vault-Keeps}
use open_key_server.Api.Sync.Endpoint.Synced.{SyncOutcome, sync_vault-Synced}
use open_key_server.Api.Request.{Env}
use open_key_server.Orm.Changes.{Creates, Updates}
use open_key_server.Api.Collections.Effects as CollectionEffects
use open_key_server.Api.Entries.Outcomes as EntryOutcomes
use open_key_server.Api.Attachments.Effects as AttachmentEffects
use open_key_server.Api.Collections.{create_collection, update_collection, delete_collection}
use open_key_server.Api.Collections.Effects.{
  create_collection-Writes, update_collection-Writes, delete_collection-Writes,
}
use open_key_server.Api.Collections.Integrity as CollectionIntegrity
use open_key_server.Api.Entries.{create_entry, update_entry, delete_entry}
use open_key_server.Api.Entries.Outcomes.{CreatesFiled, UpdatesFiled}
use open_key_server.Api.Entries.Effects.{
  create_entry-Writes, update_entry-Writes, delete_entry-Writes,
}
use open_key_server.Api.Entries.Integrity as EntryIntegrity
use open_key_server.Api.Attachments.{Upload, create_attachment, delete_attachment}
use open_key_server.Api.Attachments.Effects.{
  CreatesUploaded, create_attachment-Writes, delete_attachment-Writes,
}
use open_key_server.Api.Attachments.Integrity as AttachmentIntegrity

-- A request of a user who is signed in.
pub data Request : Type 0 where
  creates_collection : Env → User → CollectionCreate → Request
  updates_collection : Env → User → String → CollectionUpdate → Request
  creates_entry : Env → User → EntryCreate → Request
  updates_entry : Env → User → String → EntryUpdate → Request
  creates_attachment : Env → User → Upload → Request
  syncs : Env → (ℕ → ℕ) → User → SyncRequest → Request
  deletes_collection deletes_entry deletes_attachment : Env → User → String → Request

abbrev pub sender : Request → ℕ
sender (creates_collection env user body) = user.id
sender (updates_collection env user uuid body) = user.id
sender (creates_entry env user body) = user.id
sender (updates_entry env user uuid body) = user.id
sender (creates_attachment env user form) = user.id
sender (syncs env new_id user body) = user.id
sender (deletes_collection env user uuid) = user.id
sender (deletes_entry env user uuid) = user.id
sender (deletes_attachment env user uuid) = user.id

unfoldable pub serve : Request → Db → Db
serve (creates_collection env user body) d = (get_db (create_collection env user body) d).1
serve (updates_collection env user uuid body) d =
    (get_db (update_collection env user uuid body) d).1
serve (creates_entry env user body) d = (get_db (create_entry env user body) d).1
serve (updates_entry env user uuid body) d = (get_db (update_entry env user uuid body) d).1
serve (creates_attachment env user form) d = (get_db (create_attachment env user form) d).1
serve (syncs env new_id user body) d = (get_db (sync_vault env new_id user body) d).1
serve (deletes_collection env user uuid) d = (get_db (delete_collection env user uuid) d).1
serve (deletes_entry env user uuid) d = (get_db (delete_entry env user uuid) d).1
serve (deletes_attachment env user uuid) d = (get_db (delete_attachment env user uuid) d).1

unfoldable pub serve_all : List Request → Db → Db
unfolding serve
serve_all [] d = d
serve_all (q ∷ qs) d = serve_all qs (serve q d)

pub serve-IsConsistent : (q : Request) (d : Db) → IsConsistent d → IsConsistent (serve q d)
unfolding serve
serve-IsConsistent (creates_collection env user body) d k =
    Keeps-get_db _ d (CollectionIntegrity.create-Keeps env user body) k
serve-IsConsistent (updates_collection env user uuid body) d k =
    Keeps-get_db _ d (CollectionIntegrity.update-Keeps env user uuid body) k
serve-IsConsistent (creates_entry env user body) d k =
    Keeps-get_db _ d (EntryIntegrity.create-Keeps env user body) k
serve-IsConsistent (updates_entry env user uuid body) d k =
    Keeps-get_db _ d (EntryIntegrity.update-Keeps env user uuid body) k
serve-IsConsistent (creates_attachment env user form) d k =
    Keeps-get_db _ d (AttachmentIntegrity.create-Keeps user env form) k
serve-IsConsistent (syncs env new_id user body) d k =
    Keeps-get_db _ d (sync_vault-Keeps env new_id user body) k
serve-IsConsistent (deletes_collection env user uuid) d k =
    Keeps-get_db _ d (CollectionIntegrity.delete-Keeps env user uuid) k
serve-IsConsistent (deletes_entry env user uuid) d k =
    Keeps-get_db _ d (EntryIntegrity.delete-Keeps env user uuid) k
serve-IsConsistent (deletes_attachment env user uuid) d k =
    Keeps-get_db _ d (AttachmentIntegrity.delete-Keeps user env uuid) k

-- What a user has under a uuid.
pub record Holding : Type 0 where
  pub collection : Option Collection
  pub entry : Option Entry
  pub attachment : Option Attachment

abbrev pub holding : ℕ → String → Db → Holding
holding v uuid d = record {
  collection = row_at collection_key (v, uuid) d;
  entry = row_at entry_key (v, uuid) d;
  attachment = row_at attachment_key (v, uuid) d;
}

holding-eq :
    (a b : Holding)
    → a.collection ≡ b.collection
    → a.entry ≡ b.entry
    → a.attachment ≡ b.attachment
    → a ≡ b
holding-eq a b p q r = λ i. record { collection = p i; entry = q i; attachment = r i }

-- A request that writes one row of another user's leaves what `v` has alone.
module _ (v u : ℕ) (uuid x : String) (d : Db) (other : u ≢ v) where
  away : (let i : ℕ × String = (v, uuid) in let j : ℕ × String = (u, x) in ¬ (i ≡ j))
  away e = other (sym (ap (λ p. p.0) e))

  module _ {A : Type 0} (o : Result A × Db) where
    of_collection :
        (Denied : Error → Type 0) (Change : Option Collection → Collection → Type 0)
        (value : Collection → A)
        → Writes collection_key (u, x) Denied Change value d o
        → holding v uuid o.1 ≡ holding v uuid d
    of_collection Denied Change value w =
        holding-eq (holding v uuid o.1) (holding v uuid d)
          (Writes-elsewhere collection_key (u, x) Denied Change value d o w (v, uuid) away)
          (Writes-rest collection_key (u, x) Denied Change value d o w (row_at entry_key (v, uuid))
            (λ _. refl))
          (Writes-rest collection_key (u, x) Denied Change value d o w
            (row_at attachment_key (v, uuid)) (λ _. refl))

    of_entry :
        (Denied : Error → Type 0) (Change : Option Entry → Entry → Type 0) (value : Entry → A)
        → Writes entry_key (u, x) Denied Change value d o
        → holding v uuid o.1 ≡ holding v uuid d
    of_entry Denied Change value w =
        holding-eq (holding v uuid o.1) (holding v uuid d)
          (Writes-rest entry_key (u, x) Denied Change value d o w (row_at collection_key (v, uuid))
            (λ _. refl))
          (Writes-elsewhere entry_key (u, x) Denied Change value d o w (v, uuid) away)
          (Writes-rest entry_key (u, x) Denied Change value d o w (row_at attachment_key (v, uuid))
            (λ _. refl))

    of_attachment :
        (Denied : Error → Type 0) (Change : Option Attachment → Attachment → Type 0)
        (value : Attachment → A)
        → Writes attachment_key (u, x) Denied Change value d o
        → holding v uuid o.1 ≡ holding v uuid d
    of_attachment Denied Change value w =
        holding-eq (holding v uuid o.1) (holding v uuid d)
          (Writes-rest attachment_key (u, x) Denied Change value d o w
            (row_at collection_key (v, uuid)) (λ _. refl))
          (Writes-rest attachment_key (u, x) Denied Change value d o w (row_at entry_key (v, uuid))
            (λ _. refl))
          (Writes-elsewhere attachment_key (u, x) Denied Change value d o w (v, uuid) away)

-- A sync is at home in the vault of its sender only.
module _ (v : ℕ) (uuid : String) (env : Env) (new_id : ℕ → ℕ) (user : User) (body : SyncRequest)
    (d : Db) (other : user.id ≢ v) where
  not_mine : (user.id == v) ≡ false
  not_mine = ground arith

  of_sync :
      (o : Result SyncResponse × Db)
      → SyncOutcome env new_id user body d o
      → holding v uuid o.1 ≡ holding v uuid d
  of_sync (err e, d') w = ap (holding v uuid) w
  of_sync (ok response, d') (since, w) =
      holding-eq (holding v uuid d') (holding v uuid d) (w.collections (v, uuid) ∙ rw not_mine refl)
        (w.entries (v, uuid) ∙ rw not_mine refl) (w.attachments (v, uuid) ∙ rw not_mine refl)

module _ (v : ℕ) (uuid : String) where
  holding-serve :
      (q : Request) (d : Db)
      → IsConsistent d
      → sender q ≢ v
      → holding v uuid (serve q d) ≡ holding v uuid d
  unfolding serve
  holding-serve (creates_collection env user body) d k n =
      of_collection v user.id uuid body.uuid d n (get_db (create_collection env user body) d)
        (CollectionEffects.DeniesCreation user.id body d)
        (Creates (CollectionEffects.IsNewCollection env user body)) (λ c. c)
        (create_collection-Writes env user d k body)
  holding-serve (updates_collection env user x body) d k n =
      of_collection v user.id uuid x d n (get_db (update_collection env user x body) d)
        (CollectionEffects.NotFound user.id x d)
        (Updates CollectionEffects.is_live (CollectionEffects.IsPatched env.now body)) (λ c. c)
        (update_collection-Writes env user d k x body)
  holding-serve (creates_entry env user body) d k n =
      of_entry v user.id uuid body.uuid d n (get_db (create_entry env user body) d)
        (EntryOutcomes.DeniesCreation user.id body d) (CreatesFiled env user body d) (λ e. e)
        (create_entry-Writes env user d k body)
  holding-serve (updates_entry env user x body) d k n =
      of_entry v user.id uuid x d n (get_db (update_entry env user x body) d)
        (EntryOutcomes.DeniesUpdate user.id x body d) (UpdatesFiled env user body d) (λ e. e)
        (update_entry-Writes env user d k x body)
  holding-serve (creates_attachment env user form) d k n =
      of_attachment v user.id uuid form.uuid d n (get_db (create_attachment env user form) d)
        (AttachmentEffects.DeniesUpload user.id form d) (CreatesUploaded env user form) (λ a. a)
        (create_attachment-Writes env user d k form)
  holding-serve (syncs env new_id user body) d k n =
      of_sync v uuid env new_id user body d n (get_db (sync_vault env new_id user body) d)
        (sync_vault-Synced env new_id user body d k)
  holding-serve (deletes_collection env user x) d k n =
      of_collection v user.id uuid x d n (get_db (delete_collection env user x) d)
        (CollectionEffects.NotFound user.id x d)
        (Updates CollectionEffects.is_live (CollectionEffects.IsTombstone env.now)) (λ c. tt)
        (delete_collection-Writes env user d k x)
  holding-serve (deletes_entry env user x) d k n =
      of_entry v user.id uuid x d n (get_db (delete_entry env user x) d)
        (EntryOutcomes.NotFound user.id x d)
        (Updates EntryOutcomes.is_live (EntryOutcomes.IsTombstone env.now)) (λ e. tt)
        (delete_entry-Writes env user d k x)
  holding-serve (deletes_attachment env user x) d k n =
      of_attachment v user.id uuid x d n (get_db (delete_attachment env user x) d)
        (AttachmentEffects.NotFound user.id x d)
        (Updates AttachmentEffects.is_live (AttachmentEffects.IsTombstone env.now)) (λ a. tt)
        (delete_attachment-Writes env user d k x)

  -- Over any sequence of requests that create, change, delete or sync collections, entries and
  -- attachments, all sent by other users, what a user has under any uuid stays exactly as it is.
  -- The database is assumed to meet its unique constraints before the requests.
  pub serve_all-keeps_vault :
      (qs : List Request) (d : Db)
      → IsConsistent d
      → All (λ q. sender q ≢ v) qs
      → holding v uuid (serve_all qs d) ≡ holding v uuid d
  unfolding serve_all
  serve_all-keeps_vault [] d k n = refl
  serve_all-keeps_vault (q ∷ qs) d k n =
      serve_all-keeps_vault qs (serve q d) (serve-IsConsistent q d k) n.1 ∙ holding-serve q d k n.0
