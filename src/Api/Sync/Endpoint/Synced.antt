-- ===== src/Api/Sync/Endpoint/Synced.antt =====
-- What POST /sync does as a whole.
use open_key_server.Base.{
  ℕ, ◌+◌, ◌==◌, nat_eq, String, ◌&&◌, some, List, length, filter, ◌≡◌, refl, sym, ap, subst, ◌∙◌,
  inl, inr, ltb, All,
}
use open_key_server.Models.{Db}
use open_key_server.Models.Account.{User}
use open_key_server.Models.Vault.{Collection, Entry, Attachment}
use open_key_server.Orm.Session.{
  Session, Result, M, ok, err, get_db, start, finish, lift, bind-ok, bind-err, Result-cases, ◌>>=◌,
}
use open_key_server.Orm.Tables.{Table, select_all}
use open_key_server.Orm.Schema.{collection_table, entry_table, attachment_table}
use open_key_server.Orm.Integrity.{IsConsistent, HasKeys}
use open_key_server.Orm.Effects.{Keyed, row_at}
use open_key_server.Orm.Keys.{collection_key, entry_key, attachment_key}
use open_key_server.Orm.Outcomes.{get_db-run}
use open_key_server.Schemas.Sync.{
  SyncRequest, SyncResponse, SyncCollectionItem, SyncEntryItem, SyncAttachmentItem,
}
use open_key_server.Api.Request.{Env}
use open_key_server.Api.Sync.Cursor.{since_to_datetime}
use open_key_server.Api.Sync.Push.{Pushing, Pushed, push, winners}
use open_key_server.Api.Sync.Push.Refines.{pushed_at, Pushes, push_fails, push_fills, push-Pushes}
use open_key_server.Api.Sync.Response.{merge_by_uuid}
use open_key_server.Api.Sync.Endpoint.{
  collections_p, entries_p, attachments_p, since_of, sync_response, cursor_of, latest_of, pull,
  latest, pull_all, sync_vault,
}
use open_key_server.Api.Sync.Endpoint.Lawful.{
  collections-IsLawful, entries-IsLawful, attachments-IsLawful,
}
use open_key_server.Api.Sync.Endpoint.Pull.{Answers, pulled-Answers}

module _ (env : Env) (new_id : ℕ → ℕ) (user : User) (body : SyncRequest) (d : Db) where
  abbrev pub of_collections : Pushing Collection SyncCollectionItem
  of_collections = collections_p env new_id user

  abbrev pub of_entries : Pushing Entry SyncEntryItem
  of_entries = entries_p env new_id user

  abbrev pub of_attachments : Pushing Attachment SyncAttachmentItem
  of_attachments = attachments_p env new_id user

  -- A table holds what its items make of its rows.
  abbrev pub IsPushed :
      {R Item : Type 0} {t : Table R}
      → Keyed t (ℕ × String)
      → Pushing R Item
      → ℕ
      → List Item
      → Db
      → Db
      → Type 0
  IsPushed k p n items before after =
      (j : ℕ × String) → row_at k j after ≡ pushed_at k p user.id n items j (row_at k j before)

  -- The rows that won against an item are those that are stored.
  abbrev IsEchoed :
      {R Item : Type 0} {t : Table R}
      → Keyed t (ℕ × String)
      → Pushing R Item
      → Pushed R
      → Db
      → Type 0
  IsEchoed k p held after =
      All (λ r. row_at k (user.id, p.uuid r) after ≡ some r) (winners p held.tracked held.conflicts)

  abbrev pub mine : {R Item : Type 0} → Pushing R Item → List R → List R
  mine p = filter (λ r. p.user_of r == user.id)

  abbrev pub first_entry : ℕ
  first_entry = length body.collections

  abbrev pub first_attachment : ℕ
  first_attachment = length body.collections + length body.entries

  -- The three tables after the push, the rest of the database, and the answer.
  pub record Synced (since : ℕ) (response : SyncResponse) (d' : Db) : Type 0 where
    pub read : since_to_datetime (since_of body) ≡ ok since
    pub collections : IsPushed collection_key of_collections 0 body.collections d d'
    pub entries : IsPushed entry_key of_entries first_entry body.entries d d'
    pub attachments : IsPushed attachment_key of_attachments first_attachment body.attachments d d'
    pub rest : d' ≡ record d {
      collections = d'.collections;
      entries = d'.entries;
      attachments = d'.attachments;
    }
    pub pulled_collections : List Collection
    pub pulled_entries : List Entry
    pub pulled_attachments : List Attachment
    pub answer :
        response
        ≡ sync_response pulled_collections pulled_entries pulled_attachments (
            cursor_of
              (latest_of (λ r. r.updated_at) (mine of_collections d'.collections))
              (latest_of (λ r. r.updated_at) (mine of_entries d'.entries))
              (latest_of (λ r. r.updated_at) (mine of_attachments d'.attachments)))
    pub collections_answered :
        Answers collection_key of_collections user.id (λ j r. refl) since d' pulled_collections
    pub entries_answered :
        Answers entry_key of_entries user.id (λ j r. refl) since d' pulled_entries
    pub attachments_answered :
        Answers attachment_key of_attachments user.id (λ j r. refl) since d' pulled_attachments

  abbrev pub SyncOutcome : Result SyncResponse × Db → Type 0
  SyncOutcome (err e, d') = d' ≡ d
  SyncOutcome (ok response, d') = (since : ℕ) × Synced since response d'

  module _ (since : ℕ) (read : since_to_datetime (since_of body) ≡ ok since) where
    abbrev run : Result SyncResponse × Session → Result SyncResponse × Db
    run o = finish o.0 o.1

    -- The pull reads the state that the push has left.
    pub pull_all-eq :
        (c : Pushed Collection) (e : Pushed Entry) (a : Pushed Attachment) (s : Session)
        → pull_all env new_id user since c e a s ≡ (
          ok (
              sync_response
                (merge_by_uuid
                  (λ r. r.uuid)
                  (filter
                    (λ r. r.user_id == user.id && ltb since r.updated_at)
                    s.current.collections)
                  (winners of_collections c.tracked c.conflicts))
                (merge_by_uuid
                  (λ r. r.uuid)
                  (filter (λ r. r.user_id == user.id && ltb since r.updated_at) s.current.entries)
                  (winners of_entries e.tracked e.conflicts))
                (merge_by_uuid
                  (λ r. r.uuid)
                  (filter
                    (λ r. r.user_id == user.id && ltb since r.updated_at)
                    s.current.attachments)
                  (winners of_attachments a.tracked a.conflicts))
                (cursor_of
                  (latest_of (λ r. r.updated_at) (mine of_collections s.current.collections))
                  (latest_of (λ r. r.updated_at) (mine of_entries s.current.entries))
                  (latest_of (λ r. r.updated_at) (mine of_attachments s.current.attachments)))),
          s,
        )
    unfolding pull_all pull latest select_all
    pull_all-eq c e a s = refl

    module _ (k : IsConsistent d) where
      -- The three pushes went well.
      filled :
          (c : Pushed Collection) (e : Pushed Entry) (a : Pushed Attachment) (d₁ d₂ d₃ : Db)
          → IsPushed collection_key of_collections 0 body.collections d d₁
          → d₁ ≡ record d { collections = d₁.collections }
          → HasKeys collection_table d₁
          → IsEchoed collection_key of_collections c d₁
          → IsPushed entry_key of_entries first_entry body.entries d₁ d₂
          → d₂ ≡ record d₁ { entries = d₂.entries }
          → HasKeys entry_table d₂
          → IsEchoed entry_key of_entries e d₂
          → IsPushed attachment_key of_attachments first_attachment body.attachments d₂ d₃
          → d₃ ≡ record d₂ { attachments = d₃.attachments }
          → HasKeys attachment_table d₃
          → IsEchoed attachment_key of_attachments a d₃
          → SyncOutcome
              (run (pull_all env new_id user since c e a (record { current = d₃; committed = d })))
      filled c e a d₁ d₂ d₃ at₁ rest₁ keys₁ ws₁ at₂ rest₂ keys₂ ws₂ at₃ rest₃ keys₃ ws₃ =
          let keep : Db → Db = λ x. record d {
            collections = x.collections;
            entries = x.entries;
            attachments = x.attachments;
          } in
          let with_entries : Db → Db = λ x. record x { entries = d₂.entries } in
          let with_attachments : Db → Db = λ x. record x { attachments = d₃.attachments } in
          let to₁ : d₃ ≡ with_attachments (with_entries d₁) = rest₃ ∙ ap with_attachments rest₂ in
          let form = to₁ ∙ ap (λ x. with_attachments (with_entries x)) rest₁ in
          rw (pull_all-eq c e a (record { current = d₃; committed = d })) (
            since,
            record {
              read = read;
              collections = λ j. ap (row_at collection_key j) to₁ ∙ at₁ j;
              entries = λ j.
                  ap (row_at entry_key j) rest₃
                  ∙ at₂ j
                  ∙ ap
                      (λ x.
                        pushed_at entry_key of_entries user.id first_entry body.entries j
                          (row_at entry_key j x))
                      rest₁;
              attachments = λ j.
                  at₃ j
                  ∙ ap
                      (λ x.
                        pushed_at attachment_key of_attachments user.id first_attachment
                          body.attachments j (row_at attachment_key j x))
                      (rest₂ ∙ ap with_entries rest₁);
              rest = form ∙ sym (ap keep form);
              pulled_collections = _;
              pulled_entries = _;
              pulled_attachments = _;
              answer = refl;
              collections_answered =
                  pulled-Answers collection_key of_collections user.id (λ j r. refl) since d₃
                    (winners of_collections c.tracked c.conflicts)
                    (subst (HasKeys collection_table) (sym to₁) keys₁)
                    (subst (IsEchoed collection_key of_collections c) (sym to₁) ws₁);
              entries_answered =
                  pulled-Answers entry_key of_entries user.id (λ j r. refl) since d₃
                    (winners of_entries e.tracked e.conflicts)
                    (subst (HasKeys entry_table) (sym rest₃) keys₂)
                    (subst (IsEchoed entry_key of_entries e) (sym rest₃) ws₂);
              attachments_answered =
                  pulled-Answers attachment_key of_attachments user.id (λ j r. refl) since d₃
                    (winners of_attachments a.tracked a.conflicts) keys₃ ws₃;
            },
          )

  -- What is left of the request after each push.
  abbrev then_attachments : ℕ → Pushed Collection → Pushed Entry → M SyncResponse
  then_attachments since c e =
      push ⦃t = attachment_table⦄ of_attachments user.id first_attachment body.attachments >>= λ a.
      pull_all env new_id user since c e a

  abbrev then_entries : ℕ → Pushed Collection → M SyncResponse
  then_entries since c =
      push ⦃t = entry_table⦄ of_entries user.id first_entry body.entries
      >>= then_attachments since c

  abbrev then_collections : ℕ → M SyncResponse
  then_collections since =
      push ⦃t = collection_table⦄ of_collections user.id 0 body.collections >>= then_entries since

  module _ (k : IsConsistent d) where
    abbrev Ends : Result SyncResponse × Session → Type 0
    Ends o = SyncOutcome (finish o.0 o.1)

    -- One push, and the rest of the request if it went well.
    push-Ends :
        {R Item : Type 0} (t : Table R) (key : Keyed t (ℕ × String)) (p : Pushing R Item) (n : ℕ)
        (items : List Item) (f : Pushed R → M SyncResponse) (s : Session)
        → s.committed ≡ d
        → Pushes key p user.id n items s (push ⦃t = t⦄ p user.id n items s)
        → ((held : Pushed R) (d' : Db)
            → IsPushed key p n items s.current d'
            → d' ≡ t.with_rows (t.rows d') s.current
            → HasKeys t d'
            → IsEchoed key p held d'
            → Ends (f held (record { current = d'; committed = d })))
        → Ends ((push ⦃t = t⦄ p user.id n items >>= f) s)
    push-Ends t key p n items f s c (push_fails e s' o same) next =
        subst Ends (sym (bind-err (push ⦃t = t⦄ p user.id n items) f o)) (same ∙ c)
    push-Ends t key p n items f s c (push_fills held d' o at rest keys echoed) next =
        subst Ends (sym (bind-ok (push ⦃t = t⦄ p user.id n items) f o)) (
          subst (λ x. Ends (f held (record { current = d'; committed = x }))) (sym c)
            (next held d' at rest keys echoed))

    collections-Ends :
        (since : ℕ)
        → since_to_datetime (since_of body) ≡ ok since
        → Ends (then_collections since (start d))
    collections-Ends since read =
        push-Ends collection_table collection_key of_collections 0 body.collections
          (then_entries since) (start d) refl
          (push-Pushes collection_key of_collections user.id (λ j r. refl)
            (collections-IsLawful env new_id user.id) body.collections 0 (start d)
            k.collections_keys k.collections_keys)
          (λ c d₁ at₁ rest₁ keys₁ ws₁.
            let s₁ : Session = record { current = d₁; committed = d } in
            push-Ends entry_table entry_key of_entries first_entry body.entries
              (then_attachments since c) s₁ refl
              (push-Pushes entry_key of_entries user.id (λ j r. refl)
                (entries-IsLawful env new_id user.id) body.entries first_entry s₁
                (subst (HasKeys entry_table) (sym rest₁) k.entries_keys) k.entries_keys)
              (λ e d₂ at₂ rest₂ keys₂ ws₂.
                let s₂ : Session = record { current = d₂; committed = d } in
                push-Ends attachment_table attachment_key of_attachments first_attachment
                  body.attachments (λ a. pull_all env new_id user since c e a) s₂ refl
                  (push-Pushes attachment_key of_attachments user.id (λ j r. refl)
                    (attachments-IsLawful env new_id user.id) body.attachments first_attachment s₂
                    (subst (HasKeys attachment_table) (sym rest₂)
                      (subst (HasKeys attachment_table) (sym rest₁) k.attachments_keys))
                    k.attachments_keys)
                  (λ a d₃ at₃ rest₃ keys₃ ws₃.
                    filled since read k c e a d₁ d₂ d₃ at₁ rest₁ keys₁ ws₁ at₂ rest₂ keys₂ ws₂ at₃
                      rest₃ keys₃ ws₃)))

    sync_vault-Ends : Ends (sync_vault env new_id user body (start d))
    unfolding sync_vault
    sync_vault-Ends = elim (Result-cases (since_to_datetime (since_of body))) [
      | inl (e, bad) ↦
          subst Ends
            (sym (
              bind-err (lift (since_to_datetime (since_of body))) then_collections
                (ap (λ r. (r, start d)) bad)))
            refl
      | inr (since, read) ↦
          subst Ends
            (sym (
              bind-ok (lift (since_to_datetime (since_of body))) then_collections
                (ap (λ r. (r, start d)) read)))
            (collections-Ends since read)
    ]

    -- A sync raises and changes nothing, or it is answered and: in each of the three tables the
    -- user's row under a uuid is what the pushed items of that uuid make of the old row, one
    -- after the other, and no other row and no other table changes; the answer has only rows of
    -- the user's as they are stored, one for each uuid, and every one that was changed after the
    -- cursor; and its new cursor is made of the latest times of the user's rows. The database is
    -- assumed to meet its unique constraints before the request.
    pub sync_vault-Synced : SyncOutcome (get_db (sync_vault env new_id user body) d)
    sync_vault-Synced =
        subst SyncOutcome (sym (get_db-run (sync_vault env new_id user body) d refl))
          sync_vault-Ends
