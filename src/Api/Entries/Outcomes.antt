-- ===== src/Api/Entries/Outcomes.antt =====
-- What the requests of app/api/entries.py may come to: when they are refused, and the rows.
use open_key_server.Base.{
  ℕ, String, ◌≡◌, refl, Bool, true, false, not, ◌+◌, ◌==◌, nat_eq, ◌&&◌, ◌||◌, ◌⊎◌, inl, inr,
  Option, none, some, Option-cases, Bool-cases, arith, find, string_eq,
}
use open_key_server.Models.{Db}
use open_key_server.Models.Account.{User}
use open_key_server.Models.Vault.{Entry}
use open_key_server.Orm.Session.{Error, Session, M, http, ok, err}
use open_key_server.Orm.Tables.{select_first}
use open_key_server.Orm.Changes.{
  Creates, Updates, Takes, TakesValue, set_required-TakesValue, set_nullable-Takes, or_left_none,
  or_right_none,
}
use open_key_server.Schemas.Fields.{Patch, is_null}
use open_key_server.Schemas.Entries.{EntryCreate, EntryUpdate}
use open_key_server.Text.{is_empty}
use open_key_server.Api.Request.{Env, is_none}
use open_key_server.Api.Collections
use open_key_server.Api.Entries.{
  owns, owns_live, has_null, updated, require_owned_collection, require_patched_collection,
}

-- The collection that an entry is filed under is one that the user has.
unfoldable pub is_filed : ℕ → Option String → Db → Bool
is_filed u none d = true
is_filed u (some uuid) d =
    is_empty uuid
    || not
        (is_none (find (λ c. (c.user_id == u && c.uuid == uuid) && not c.is_deleted) d.collections))

abbrev Outcome : Bool → M (Unit {0}) → Session → Type 0
Outcome b m s =
    (b ≡ true) × (m s ≡ (ok tt, s))
    ⊎ (b ≡ false) × (m s ≡ (err (http 400 "Collection not found"), s))

pub require-Outcome :
    (u : ℕ) (c : Option String) (s : Session)
    → Outcome (is_filed u c s.current) (require_owned_collection u c) s
unfolding require_owned_collection is_filed select_first
require-Outcome u none s = inl (refl, refl)
require-Outcome u (some uuid) s = elim (Bool-cases (is_empty uuid)) [
  | inl empty ↦ rw empty (inl (refl, refl))
  | inr named ↦ elim (Option-cases (find (Collections.owns_live u uuid) s.current.collections)) [
    | inl e ↦ rw (named, e) (inr (refl, refl))
    | inr (c, e) ↦ rw (named, e) (inl (refl, refl))
  ]
]

unfoldable pub is_filed_patch : ℕ → Patch String → Db → Bool
is_filed_patch u none d = true
is_filed_patch u (some c) d = is_filed u c d

pub patched-Outcome :
    (u : ℕ) (c : Patch String) (s : Session)
    → Outcome (is_filed_patch u c s.current) (require_patched_collection u c) s
unfolding require_patched_collection is_filed_patch
patched-Outcome u none s = inl (refl, refl)
patched-Outcome u (some c) s = require-Outcome u c s

abbrev pub is_live : Entry → Bool
is_live c = not c.is_deleted

pub owns_of_live :
    (u : ℕ) (uuid : String) (c : Entry) → owns_live u uuid c ≡ true → owns u uuid c ≡ true
owns_of_live u uuid c h = ground arith

pub live_of_live :
    (u : ℕ) (uuid : String) (c : Entry) → owns_live u uuid c ≡ true → is_live c ≡ true
live_of_live u uuid c h = ground arith

-- The row that a creation stores.
abbrev pub IsNewEntry : Env → User → EntryCreate → Entry → Type 0
IsNewEntry env user body e =
    (e.user_id ≡ user.id)
    × (e.uuid ≡ body.uuid)
    × (e.collection_uuid ≡ body.collection_uuid)
    × (e.encrypted_payload ≡ body.encrypted_payload)
    × (e.revision ≡ body.revision)
    × (e.is_deleted ≡ false)
    × (e.created_at ≡ env.db_now)
    × (e.updated_at ≡ env.db_now)

-- A row that was changed field by field.
abbrev pub IsPatched : ℕ → EntryUpdate → Entry → Entry → Type 0
IsPatched now body old e =
    Takes body.collection_uuid old.collection_uuid e.collection_uuid
    × TakesValue body.encrypted_payload old.encrypted_payload e.encrypted_payload
    × TakesValue body.revision old.revision e.revision
    × TakesValue body.is_deleted old.is_deleted e.is_deleted
    × (e.updated_at ≡ now)
    × (e.id ≡ old.id)
    × (e.user_id ≡ old.user_id)
    × (e.uuid ≡ old.uuid)
    × (e.created_at ≡ old.created_at)

-- Deleted rows stay, for the clients that have not seen the deletion yet.
abbrev pub IsTombstone : ℕ → Entry → Entry → Type 0
IsTombstone now old e =
    (e ≡ record old { is_deleted = true; revision = old.revision + 1; updated_at = now })

pub updated-IsPatched :
    (now : ℕ) (body : EntryUpdate) (e : Entry)
    → has_null body ≡ false
    → IsPatched now body e (updated now body e)
unfolding has_null
updated-IsPatched now body e h =
    let a = is_null body.encrypted_payload in
    let b = is_null body.revision in
    let c = is_null body.is_deleted in
    (
      set_nullable-Takes body.collection_uuid e.collection_uuid,
      set_required-TakesValue body.encrypted_payload e.encrypted_payload
          (or_left_none a b (or_left_none (a || b) c h)),
      set_required-TakesValue body.revision e.revision
          (or_right_none a b (or_left_none (a || b) c h)),
      set_required-TakesValue body.is_deleted e.is_deleted (or_right_none (a || b) c h),
      refl,
      refl,
      refl,
      refl,
      refl,
    )

-- Besides, the collection that the entry is filed under is a live one of the user's.
abbrev pub CreatesFiled : Env → User → EntryCreate → Db → Option Entry → Entry → Type 0
CreatesFiled env user body d old e =
    Creates (IsNewEntry env user body) old e × (is_filed user.id e.collection_uuid d ≡ true)

abbrev pub UpdatesFiled : Env → User → EntryUpdate → Db → Option Entry → Entry → Type 0
UpdatesFiled env user body d old e =
    Updates is_live (IsPatched env.now body) old e
    × (is_filed_patch user.id body.collection_uuid d ≡ true)

-- The user has no live entry of that uuid: 404.
abbrev pub NotFound : ℕ → String → Db → Error → Type 0
NotFound u uuid d e =
    (e ≡ http 404 "Entry not found")
    × (find (λ c. (c.user_id == u && c.uuid == uuid) && not c.is_deleted) d.entries ≡ none)

-- The uuid is taken (409), or the collection is not one that the user has (400).
abbrev pub DeniesCreation : ℕ → EntryCreate → Db → Error → Type 0
DeniesCreation u body d e =
    ((e ≡ http 409 "Entry with this uuid already exists")
      × ((c : Entry) × (find (λ c. c.user_id == u && c.uuid == body.uuid) d.entries ≡ some c)))
    ⊎ ((e ≡ http 400 "Collection not found") × (is_filed u body.collection_uuid d ≡ false))

abbrev pub DeniesUpdate : ℕ → String → EntryUpdate → Db → Error → Type 0
DeniesUpdate u uuid body d e =
    NotFound u uuid d e
    ⊎ ((e ≡ http 400 "Collection not found") × (is_filed_patch u body.collection_uuid d ≡ false))
