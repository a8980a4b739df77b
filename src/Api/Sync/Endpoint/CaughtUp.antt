-- ===== src/Api/Sync/Endpoint/CaughtUp.antt =====
-- A client that pulls with the cursor that it was given, and pushes nothing, is told nothing new.
use open_key_server.Base.{
  ℕ, ◌==◌, nat_eq, ◌&&◌, some, List, [], any, filter, map, ◌≡◌, ap, ◌∙◌, subst, ltb, All-mono,
  arith,
}
use open_key_server.Models.{Db}
use open_key_server.Models.Account.{User}
use open_key_server.Orm.Session.{
  Session, Result, M, ok, get_db, start, lift, pure, for_each, ◌>>=◌, ◌>>◌, bind-ok,
}
use open_key_server.Orm.Tables.{Table, select_all}
use open_key_server.Orm.Schema.{collection_table, entry_table, attachment_table}
use open_key_server.Orm.Outcomes.{get_db-run}
use open_key_server.Schemas.Sync.{
  SyncRequest, SyncResponse, SyncCollectionItem, SyncEntryItem, SyncAttachmentItem,
}
use open_key_server.Models.Vault.{Collection, Entry, Attachment}
use open_key_server.Api.Request.{Env}
use open_key_server.Api.Sync.Cursor.{since_to_datetime, datetime_to_revision}
use open_key_server.Api.Sync.Push.{
  Pushing, Pushed, as_read, in_push, push, push_items, flush_row, winners, read_held,
}
use open_key_server.Api.Sync.Response.{merge_by_uuid}
use open_key_server.Api.Sync.Endpoint.{
  collections_p, entries_p, attachments_p, cursor_of, latest_of, pull_all, sync_vault,
  sync_response,
}
use open_key_server.Api.Sync.Endpoint.Synced.{pull_all-eq, SyncOutcome, sync_vault-Synced}
use open_key_server.Orm.Integrity.{IsConsistent}
use open_key_server.Api.Sync.Endpoint.Times.{
  AreRepresentable, IsLatest, latest_of-IsLatest, IsExact-max, since_to_datetime-IsExact,
  filter-none, filter-late,
}

module _ {R Item : Type 0} ⦃t : Table R⦄ (p : Pushing R Item) (user_id n : ℕ) (s : Session) where
  push-nil : push p user_id n [] s ≡ (ok (read_held p []), s)
  unfolding push select_all push_items any
  push-nil =
      let nothing =
        filter-none (λ r. p.user_of r == user_id && in_push p [] (p.uuid r)) (t.rows s.current)
          (λ r. ground arith) in
      ap (λ rows. (for_each (flush_row p) (map as_read rows) >> pure (read_held p rows)) s) nothing

-- A request that pushes nothing.
abbrev pub quiet : ℕ → SyncRequest
quiet since = record {
  since_revision = some since;
  collections = [];
  entries = [];
  attachments = [];
}

module _ (env : Env) (new_id : ℕ → ℕ) (user : User) (d : Db) where
  abbrev pub of_collections : Pushing Collection SyncCollectionItem
  of_collections = collections_p env new_id user

  abbrev pub own_collections : List Collection
  own_collections = filter (λ r. r.user_id == user.id) d.collections

  abbrev pub of_entries : Pushing Entry SyncEntryItem
  of_entries = entries_p env new_id user

  abbrev pub own_entries : List Entry
  own_entries = filter (λ r. r.user_id == user.id) d.entries

  abbrev pub of_attachments : Pushing Attachment SyncAttachmentItem
  of_attachments = attachments_p env new_id user

  abbrev pub own_attachments : List Attachment
  own_attachments = filter (λ r. r.user_id == user.id) d.attachments

  -- The times of the user's rows are between 2005 and 2038.
  pub record IsTimely : Type 0 where
    pub collections : AreRepresentable of_collections own_collections
    pub entries : AreRepresentable of_entries own_entries
    pub attachments : AreRepresentable of_attachments own_attachments

  abbrev cursor : ℕ
  cursor =
      cursor_of (latest_of (λ r. r.updated_at) own_collections)
        (latest_of (λ r. r.updated_at) own_entries) (latest_of (λ r. r.updated_at) own_attachments)

  abbrev none_new : SyncResponse
  none_new = record { collections = []; entries = []; attachments = []; server_revision = cursor }

  module _ (timely : IsTimely) where
    collections-IsLatest :
        IsLatest of_collections own_collections
          (datetime_to_revision (latest_of (λ r. r.updated_at) own_collections))
    collections-IsLatest = latest_of-IsLatest of_collections own_collections timely.collections

    entries-IsLatest :
        IsLatest of_entries own_entries
          (datetime_to_revision (latest_of (λ r. r.updated_at) own_entries))
    entries-IsLatest = latest_of-IsLatest of_entries own_entries timely.entries

    attachments-IsLatest :
        IsLatest of_attachments own_attachments
          (datetime_to_revision (latest_of (λ r. r.updated_at) own_attachments))
    attachments-IsLatest = latest_of-IsLatest of_attachments own_attachments timely.attachments

    cursor_read : since_to_datetime cursor ≡ ok cursor
    cursor_read = since_to_datetime-IsExact cursor (
        IsExact-max _ _ (IsExact-max _ _ collections-IsLatest.exact entries-IsLatest.exact)
          attachments-IsLatest.exact)

    -- None of the user's rows is later than the cursor.
    no_collections :
        filter (λ r. r.user_id == user.id && ltb cursor r.updated_at) d.collections ≡ []
    no_collections =
        filter-late (λ r. r.user_id == user.id) (λ r. r.updated_at) cursor d.collections
          (All-mono _ _ own_collections (λ r h. omega (arith, h)) collections-IsLatest.bound)

    no_entries : filter (λ r. r.user_id == user.id && ltb cursor r.updated_at) d.entries ≡ []
    no_entries =
        filter-late (λ r. r.user_id == user.id) (λ r. r.updated_at) cursor d.entries
          (All-mono _ _ own_entries (λ r h. omega (arith, h)) entries-IsLatest.bound)

    no_attachments :
        filter (λ r. r.user_id == user.id && ltb cursor r.updated_at) d.attachments ≡ []
    no_attachments =
        filter-late (λ r. r.user_id == user.id) (λ r. r.updated_at) cursor d.attachments
          (All-mono _ _ own_attachments (λ r h. omega (arith, h)) attachments-IsLatest.bound)

    abbrev reply : List Collection → List Entry → List Attachment → Result SyncResponse × Session
    reply cs es as_ = (
      ok (
          sync_response (merge_by_uuid (λ r. r.uuid) cs []) (merge_by_uuid (λ r. r.uuid) es [])
            (merge_by_uuid (λ r. r.uuid) as_ []) cursor),
      start d,
    )

    pull_all-quiet :
        pull_all env new_id user cursor
          (read_held of_collections [])
          (read_held of_entries [])
          (read_held of_attachments [])
          (start d)
        ≡ (ok none_new, start d)
    unfolding merge_by_uuid winners
    pull_all-quiet =
        pull_all-eq env new_id user (quiet cursor) d cursor cursor_read
          (read_held of_collections []) (read_held of_entries []) (read_held of_attachments [])
          (start d)
        ∙ ap
            (λ x.
              reply x (filter (λ r. r.user_id == user.id && ltb cursor r.updated_at) d.entries)
                (filter (λ r. r.user_id == user.id && ltb cursor r.updated_at) d.attachments))
            no_collections
        ∙ ap
            (λ x.
              reply [] x
                (filter (λ r. r.user_id == user.id && ltb cursor r.updated_at) d.attachments))
            no_entries
        ∙ ap (λ x. reply [] [] x) no_attachments

    quiet-eq : sync_vault env new_id user (quiet cursor) (start d) ≡ (ok none_new, start d)
    unfolding sync_vault
    quiet-eq =
        let pull_a : Pushed Attachment → M SyncResponse = λ a.
          pull_all env new_id user cursor (read_held of_collections []) (read_held of_entries [])
            a in
        let pull_e : Pushed Entry → M SyncResponse = λ e. push of_attachments user.id 0 [] >>= λ a.
        pull_all env new_id user cursor (read_held of_collections []) e a in
        let pull_c : Pushed Collection → M SyncResponse = λ c. push of_entries user.id 0 [] >>= λ e.
        push of_attachments user.id 0 [] >>= λ a. pull_all env new_id user cursor c e a in
        let all_c : ℕ → M SyncResponse = λ since. push of_collections user.id 0 [] >>= λ c.
        push of_entries user.id 0 [] >>= λ e.
        push of_attachments user.id 0 [] >>= λ a. pull_all env new_id user since c e a in
        bind-ok (lift (since_to_datetime cursor)) all_c (ap (λ r. (r, start d)) cursor_read)
        ∙ bind-ok (push of_collections user.id 0 []) pull_c
            (push-nil of_collections user.id 0 (start d))
        ∙ bind-ok (push of_entries user.id 0 []) pull_e (push-nil of_entries user.id 0 (start d))
        ∙ bind-ok (push of_attachments user.id 0 []) pull_a
            (push-nil of_attachments user.id 0 (start d))
        ∙ pull_all-quiet

-- After a sync that was answered, another one of the same user with the cursor of the answer and
-- nothing to push, with nothing in between, is answered with no rows and the same cursor, and
-- changes nothing; the times of the user's rows are assumed to lie between 22 October 2005 and
-- January 2038. The database is assumed to meet its unique constraints before the request.
pub sync_vault-sync_vault :
    (env later_env : Env) (new_id later_id : ℕ → ℕ) (user : User) (body : SyncRequest) (d : Db)
    → IsConsistent d
    → (response : SyncResponse) (d' : Db)
    → get_db (sync_vault env new_id user body) d ≡ (ok response, d')
    → IsTimely later_env later_id user d'
    → get_db (sync_vault later_env later_id user (quiet response.server_revision)) d' ≡ (
      ok (record {
        collections = [];
        entries = [];
        attachments = [];
        server_revision = response.server_revision;
      }),
      d',
    )
sync_vault-sync_vault env later_env new_id later_id user body d k response d' e timely =
    let (since, w) =
      subst (SyncOutcome env new_id user body d) e (sync_vault-Synced env new_id user body d k) in
    let c : response.server_revision ≡ cursor later_env later_id user d' =
      ap (λ r. r.server_revision) w.answer in
    rw c (
      get_db-run (sync_vault later_env later_id user (quiet (cursor later_env later_id user d'))) d'
        (quiet-eq later_env later_id user d' timely))
