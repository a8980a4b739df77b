-- ===== src/Api/Entries/Effects.antt =====
-- What each request of app/api/entries.py does to the entries.
use open_key_server.Base.{
  String, ◌≡◌, refl, true, nat_eq, inl, inr, some, Option-cases, Bool-cases, arith, find,
  find-satisfies, ==_refl, string_eq,
}
use open_key_server.Models.{Db}
use open_key_server.Models.Account.{User}
use open_key_server.Models.Vault.{Entry}
use open_key_server.Orm.Session.{get_db, start, bind-ok, bind-err}
use open_key_server.Orm.Tables.{select_first}
use open_key_server.Orm.Integrity.{IsConsistent}
use open_key_server.Orm.Keys.{entry_key}
use open_key_server.Orm.Changes.{Updates}
use open_key_server.Orm.Effects.{Writes, add-Writes, save-Writes}
use open_key_server.Schemas.Entries.{EntryCreate, EntryUpdate}
use open_key_server.Api.Request.{Env}
use open_key_server.Api.Entries.{
  create_entry, update_entry, delete_entry, owns, owns_live, has_null, updated, deleted, new_entry,
}
use open_key_server.Api.Entries.Outcomes.{
  require-Outcome, patched-Outcome, is_live, owns_of_live, live_of_live, IsTombstone,
  updated-IsPatched, CreatesFiled, UpdatesFiled, NotFound, DeniesCreation, DeniesUpdate,
}

module _ (env : Env) (user : User) (d : Db) (k : IsConsistent d) where
  -- Creating an entry changes nothing and raises, only with 409 if the user has the uuid already,
  -- 400 if the collection is not one of the user's, or because the database refuses the row, or
  -- returns the new row, which is put at the user's free uuid and nowhere else: it has the
  -- collection, the payload and the revision of the body, is not deleted, and the collection in
  -- it is none, an empty text or a live one of the user's. The database is assumed to meet its
  -- unique constraints before the request.
  pub create_entry-Writes :
      (body : EntryCreate)
      → Writes entry_key
          (user.id, body.uuid)
          (DeniesCreation user.id body d)
          (CreatesFiled env user body d)
          (λ e. e)
          d
          (get_db (create_entry env user body) d)
  unfolding create_entry get_db select_first
  create_entry-Writes body = elim (Option-cases (find (owns user.id body.uuid) d.entries)) [
    | inr (c, e) ↦ rw e (refl, inr (inl (refl, (c, e))))
    | inl e ↦ elim (require-Outcome user.id body.collection_uuid (start d)) [
      | inl (filed, r) ↦
          rw (e, bind-ok _ _ r)
            (add-Writes entry_key _ (DeniesCreation user.id body d) (CreatesFiled env user body d)
              (λ c. c) (new_entry env user body) d k.entries_keys
              (ground (arith, ==_refl body.uuid))
              ((e, (refl, refl, refl, refl, refl, refl, refl, refl)), filed))
      | inr (unfiled, r) ↦ rw (e, bind-err _ _ r) (refl, inr (inr (refl, unfiled)))
    ]
  ]

  module _ (uuid : String) where
    found :
        (c : Entry)
        → find (owns_live user.id uuid) d.entries ≡ some c
        → owns_live user.id uuid c ≡ true
    found c e = find-satisfies (owns_live user.id uuid) d.entries c e

    -- Deleting an entry changes nothing and raises, only with 404 if the user has no live one of
    -- that uuid, or because the database refuses the row, or marks a live entry of the user's as
    -- deleted, with the next revision, and changes nothing else. The database is assumed to meet
    -- its unique constraints before the request.
    pub delete_entry-Writes :
        Writes entry_key
          (user.id, uuid)
          (NotFound user.id uuid d)
          (Updates is_live (IsTombstone env.now))
          (λ c. tt)
          d
          (get_db (delete_entry env user uuid) d)
    unfolding delete_entry get_db select_first
    delete_entry-Writes = elim (Option-cases (find (owns_live user.id uuid) d.entries)) [
      | inl e ↦ rw e (refl, inr (refl, e))
      | inr (c, e) ↦ rw e (
          save-Writes entry_key _ (NotFound user.id uuid d) (Updates is_live (IsTombstone env.now))
            (λ c. tt) (deleted env.now c) d (owns_live user.id uuid) c k.entries_keys e refl
            (λ j. refl) (owns_of_live user.id uuid c (found c e))
            (c, refl, live_of_live user.id uuid c (found c e), refl))
    ]

    -- Updating an entry changes nothing and raises, only with 404 if the user has no live one of
    -- that uuid, 400 if the collection is not one of the user's, or because the database refuses
    -- the row, or returns the user's live entry overwritten: each field that was sent has the
    -- sent value, which is not null but perhaps for the collection, each other one its old value,
    -- and the collection, if one was sent, is null, an empty text or a live one of the user's. No
    -- other row changes. The database is assumed to meet its unique constraints before the
    -- request.
    pub update_entry-Writes :
        (body : EntryUpdate)
        → Writes entry_key
            (user.id, uuid)
            (DeniesUpdate user.id uuid body d)
            (UpdatesFiled env user body d)
            (λ c. c)
            d
            (get_db (update_entry env user uuid body) d)
    unfolding update_entry get_db select_first
    update_entry-Writes body = elim (Option-cases (find (owns_live user.id uuid) d.entries)) [
      | inl e ↦ rw e (refl, inr (inl (refl, e)))
      | inr (c, e) ↦ elim (patched-Outcome user.id body.collection_uuid (start d)) [
        | inr (unfiled, r) ↦ rw (e, bind-err _ _ r) (refl, inr (inr (refl, unfiled)))
        | inl (filed, r) ↦
            rw (e, bind-ok _ _ r)
              (elim (Bool-cases (has_null body)) [
                | inl null ↦ rw null (refl, inl refl)
                | inr given ↦ rw given (
                    save-Writes entry_key _ (DeniesUpdate user.id uuid body d)
                      (UpdatesFiled env user body d) (λ c. c) (updated env.now body c) d
                      (owns_live user.id uuid) c k.entries_keys e refl (λ j. refl)
                      (owns_of_live user.id uuid c (found c e))
                      (
                        (
                          c,
                          refl,
                          live_of_live user.id uuid c (found c e),
                          updated-IsPatched env.now body c given,
                        ),
                        filed,
                      ))
              ])
      ]
    ]
