-- ===== src/Api/Collections.antt =====
-- app/api/collections.py: the collections (folders) of a user's vault.
pub mod Effects
pub mod Integrity
use open_key_server.Base.{
  ℕ, String, Bool, true, false, not, ◌+◌, ◌&&◌, ◌||◌, List, ◌==◌, nat_eq, string_eq, leb, order_by,
  if◌then◌else◌,
}
use open_key_server.Base.Int.{leb_ℤ, int_eq}
use open_key_server.Models.Account.{User}
use open_key_server.Models.Vault.{Collection}
use open_key_server.Orm.Session.{M, http, integrity_error, pure, guard, or_raise, ◌>>=◌, ◌>>◌}
use open_key_server.Orm.Tables.{select_first, select_all, add, save}
use open_key_server.Orm.Schema.{collection_table}
use open_key_server.Schemas.Fields.{set_nullable, set_required, is_null}
use open_key_server.Schemas.Collections.{CollectionCreate, CollectionUpdate}
use open_key_server.Api.Request.{Env, is_none}

abbrev pub owns : ℕ → String → Collection → Bool
owns user_id uuid c = c.user_id == user_id && c.uuid == uuid

abbrev pub owns_live : ℕ → String → Collection → Bool
owns_live user_id uuid c = owns user_id uuid c && not c.is_deleted

abbrev before : Collection → Collection → Bool
before a b =
    if a.sort_order == b.sort_order
    then leb a.created_at b.created_at
    else leb_ℤ a.sort_order b.sort_order

unfoldable pub list_collections : User → M (List Collection)
list_collections user = do
  rows ← select_all (λ c. c.user_id == user.id && not c.is_deleted)
  pure (order_by before rows)

abbrev pub new_collection : Env → User → CollectionCreate → Collection
new_collection env user body = record {
  id = env.new_id;
  user_id = user.id;
  uuid = body.uuid;
  encrypted_name = body.encrypted_name;
  icon = body.icon;
  color = body.color;
  parent_uuid = body.parent_uuid;
  sort_order = body.sort_order;
  revision = body.revision;
  is_deleted = false;
  created_at = env.db_now;
  updated_at = env.db_now;
}

unfoldable pub create_collection : Env → User → CollectionCreate → M Collection
create_collection env user body = do
  existing ← select_first (owns user.id body.uuid)
  guard (is_none existing) (http 409 "Collection with this uuid already exists")
  add (new_collection env user body)
  pure (new_collection env user body)

-- The loop of `setattr` over the fields that were sent, and the new `updated_at`.
abbrev pub updated : ℕ → CollectionUpdate → Collection → Collection
updated now body c = record c {
  encrypted_name = set_required body.encrypted_name c.encrypted_name;
  icon = set_required body.icon c.icon;
  color = set_nullable body.color c.color;
  parent_uuid = set_nullable body.parent_uuid c.parent_uuid;
  sort_order = set_required body.sort_order c.sort_order;
  revision = set_required body.revision c.revision;
  is_deleted = set_required body.is_deleted c.is_deleted;
  updated_at = now;
}

-- A field of a NOT NULL column was sent as null.
unfoldable pub has_null : CollectionUpdate → Bool
has_null body =
    is_null body.encrypted_name
    || is_null body.icon
    || is_null body.sort_order
    || is_null body.revision
    || is_null body.is_deleted

unfoldable pub update_collection : Env → User → String → CollectionUpdate → M Collection
update_collection env user uuid body = do
  found ← select_first (owns_live user.id uuid)
  collection ← or_raise found (http 404 "Collection not found")
  guard (not (has_null body)) integrity_error
  save (updated env.now body collection)
  pure (updated env.now body collection)

abbrev pub deleted : ℕ → Collection → Collection
deleted now c = record c { is_deleted = true; revision = c.revision + 1; updated_at = now }

unfoldable pub delete_collection : Env → User → String → M (Unit {0})
delete_collection env user uuid = do
  found ← select_first (owns_live user.id uuid)
  collection ← or_raise found (http 404 "Collection not found")
  save (deleted env.now collection)
  pure tt
