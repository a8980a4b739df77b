-- ===== src/Api/Collections/Effects.antt =====
-- What each request of app/api/collections.py does to the collections.
use open_key_server.Base.{
  none, ◌&&◌, ◌==◌, nat_eq, ℕ, ℕ, String, ◌≡◌, refl, some, Bool, true, false, not, ◌+◌, ◌||◌, inl,
  inr, Option-cases, Bool-cases, arith, find, find-satisfies, ==_refl, string_eq,
}
use open_key_server.Models.{Db}
use open_key_server.Models.Account.{User}
use open_key_server.Models.Vault.{Collection}
use open_key_server.Orm.Session.{Error, http, get_db}
use open_key_server.Orm.Tables.{select_first}
use open_key_server.Orm.Integrity.{IsConsistent}
use open_key_server.Orm.Keys.{collection_key}
use open_key_server.Orm.Changes.{
  Creates, Updates, Takes, TakesValue, set_required-TakesValue, set_nullable-Takes, or_left_none,
  or_right_none,
}
use open_key_server.Orm.Effects.{Writes, add-Writes, save-Writes}
use open_key_server.Schemas.Fields.{is_null}
use open_key_server.Schemas.Collections.{CollectionCreate, CollectionUpdate}
use open_key_server.Api.Request.{Env}
use open_key_server.Api.Collections.{
  create_collection, update_collection, delete_collection, owns, owns_live, has_null, updated,
  deleted, new_collection,
}

abbrev pub is_live : Collection → Bool
is_live c = not c.is_deleted

owns_of_live :
    (u : ℕ) (uuid : String) (c : Collection) → owns_live u uuid c ≡ true → owns u uuid c ≡ true
owns_of_live u uuid c h = ground arith

live_of_live :
    (u : ℕ) (uuid : String) (c : Collection) → owns_live u uuid c ≡ true → is_live c ≡ true
live_of_live u uuid c h = ground arith

-- The row that a creation stores.
abbrev pub IsNewCollection : Env → User → CollectionCreate → Collection → Type 0
IsNewCollection env user body c =
    (c.user_id ≡ user.id)
    × (c.uuid ≡ body.uuid)
    × (c.encrypted_name ≡ body.encrypted_name)
    × (c.icon ≡ body.icon)
    × (c.color ≡ body.color)
    × (c.parent_uuid ≡ body.parent_uuid)
    × (c.sort_order ≡ body.sort_order)
    × (c.revision ≡ body.revision)
    × (c.is_deleted ≡ false)
    × (c.created_at ≡ env.db_now)
    × (c.updated_at ≡ env.db_now)

-- A row that was changed field by field.
abbrev pub IsPatched : ℕ → CollectionUpdate → Collection → Collection → Type 0
IsPatched now body old c =
    TakesValue body.encrypted_name old.encrypted_name c.encrypted_name
    × TakesValue body.icon old.icon c.icon
    × Takes body.color old.color c.color
    × Takes body.parent_uuid old.parent_uuid c.parent_uuid
    × TakesValue body.sort_order old.sort_order c.sort_order
    × TakesValue body.revision old.revision c.revision
    × TakesValue body.is_deleted old.is_deleted c.is_deleted
    × (c.updated_at ≡ now)
    × (c.id ≡ old.id)
    × (c.user_id ≡ old.user_id)
    × (c.uuid ≡ old.uuid)
    × (c.created_at ≡ old.created_at)

-- Deleted rows stay, for the clients that have not seen the deletion yet.
abbrev pub IsTombstone : ℕ → Collection → Collection → Type 0
IsTombstone now old c =
    (c ≡ record old { is_deleted = true; revision = old.revision + 1; updated_at = now })

updated-IsPatched :
    (now : ℕ) (body : CollectionUpdate) (c : Collection)
    → has_null body ≡ false
    → IsPatched now body c (updated now body c)
unfolding has_null
updated-IsPatched now body c h =
    let n = is_null body.encrypted_name in
    let i = is_null body.icon in
    let o = is_null body.sort_order in
    let r = is_null body.revision in
    let g = is_null body.is_deleted in
    let h4 = or_left_none (n || i || o || r) g h in
    let h3 = or_left_none (n || i || o) r h4 in
    let h2 = or_left_none (n || i) o h3 in
    (
      set_required-TakesValue body.encrypted_name c.encrypted_name (or_left_none n i h2),
      set_required-TakesValue body.icon c.icon (or_right_none n i h2),
      set_nullable-Takes body.color c.color,
      set_nullable-Takes body.parent_uuid c.parent_uuid,
      set_required-TakesValue body.sort_order c.sort_order (or_right_none (n || i) o h3),
      set_required-TakesValue body.revision c.revision (or_right_none (n || i || o) r h4),
      set_required-TakesValue body.is_deleted c.is_deleted (or_right_none (n || i || o || r) g h),
      refl,
      refl,
      refl,
      refl,
      refl,
    )

-- The user has no live collection of that uuid: 404.
abbrev pub NotFound : ℕ → String → Db → Error → Type 0
NotFound u uuid d e =
    (e ≡ http 404 "Collection not found")
    × (find (λ c. (c.user_id == u && c.uuid == uuid) && not c.is_deleted) d.collections ≡ none)

-- The uuid is taken: 409.
abbrev pub DeniesCreation : ℕ → CollectionCreate → Db → Error → Type 0
DeniesCreation u body d e =
    (e ≡ http 409 "Collection with this uuid already exists")
    × ((c : Collection) × (find (λ c. c.user_id == u && c.uuid == body.uuid) d.collections
          ≡ some c))

module _ (env : Env) (user : User) (d : Db) (k : IsConsistent d) where
  -- Creating a collection changes nothing and raises, only with 409 if the user has the uuid
  -- already, or because the database refuses the row, or returns the new row, which is put at the
  -- user's free uuid and nowhere else: each of its fields is that of the body, and it is not
  -- deleted. The database is assumed to meet its unique constraints before the request.
  pub create_collection-Writes :
      (body : CollectionCreate)
      → Writes collection_key
          (user.id, body.uuid)
          (DeniesCreation user.id body d)
          (Creates (IsNewCollection env user body))
          (λ c. c)
          d
          (get_db (create_collection env user body) d)
  unfolding create_collection get_db select_first
  create_collection-Writes body =
      elim (Option-cases (find (owns user.id body.uuid) d.collections)) [
        | inr (c, e) ↦ rw e (refl, inr (refl, (c, e)))
        | inl e ↦ rw e (
            add-Writes collection_key _ (DeniesCreation user.id body d)
              (Creates (IsNewCollection env user body)) (λ c. c) (new_collection env user body) d
              k.collections_keys (ground (arith, ==_refl body.uuid))
              (e, (refl, refl, refl, refl, refl, refl, refl, refl, refl, refl, refl)))
      ]

  module _ (uuid : String) where
    found :
        (c : Collection)
        → find (owns_live user.id uuid) d.collections ≡ some c
        → owns_live user.id uuid c ≡ true
    found c e = find-satisfies (owns_live user.id uuid) d.collections c e

    -- Deleting a collection changes nothing and raises, only with 404 if the user has no live one
    -- of that uuid, or because the database refuses the row, or marks a live collection of the
    -- user's as deleted, with the next revision, and changes nothing else. The database is
    -- assumed to meet its unique constraints before the request.
    pub delete_collection-Writes :
        Writes collection_key
          (user.id, uuid)
          (NotFound user.id uuid d)
          (Updates is_live (IsTombstone env.now))
          (λ c. tt)
          d
          (get_db (delete_collection env user uuid) d)
    unfolding delete_collection get_db select_first
    delete_collection-Writes = elim (Option-cases (find (owns_live user.id uuid) d.collections)) [
      | inl e ↦ rw e (refl, inr (refl, e))
      | inr (c, e) ↦ rw e (
          save-Writes collection_key _ (NotFound user.id uuid d)
            (Updates is_live (IsTombstone env.now)) (λ c. tt) (deleted env.now c) d
            (owns_live user.id uuid) c k.collections_keys e refl (λ j. refl)
            (owns_of_live user.id uuid c (found c e))
            (c, refl, live_of_live user.id uuid c (found c e), refl))
    ]

    -- Updating a collection changes nothing and raises, only with 404 if the user has no live one
    -- of that uuid, or because the database refuses the row, or returns the user's live
    -- collection overwritten: each field that was sent has the sent value, which is not null but
    -- perhaps for the color and the parent, and each other one its old value. No other row
    -- changes. The database is assumed to meet its unique constraints before the request.
    pub update_collection-Writes :
        (body : CollectionUpdate)
        → Writes collection_key
            (user.id, uuid)
            (NotFound user.id uuid d)
            (Updates is_live (IsPatched env.now body))
            (λ c. c)
            d
            (get_db (update_collection env user uuid body) d)
    unfolding update_collection get_db select_first
    update_collection-Writes body =
        elim (Option-cases (find (owns_live user.id uuid) d.collections)) [
          | inl e ↦ rw e (refl, inr (refl, e))
          | inr (c, e) ↦ elim (Bool-cases (has_null body)) [
            | inl null ↦ rw (e, null) (refl, inl refl)
            | inr given ↦
                rw (e, given)
                  (save-Writes collection_key _ (NotFound user.id uuid d)
                    (Updates is_live (IsPatched env.now body)) (λ c. c) (updated env.now body c) d
                    (owns_live user.id uuid) c k.collections_keys e refl (λ j. refl)
                    (owns_of_live user.id uuid c (found c e))
                    (
                      c,
                      refl,
                      live_of_live user.id uuid c (found c e),
                      updated-IsPatched env.now body c given,
                    ))
          ]
        ]
