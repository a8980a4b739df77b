-- ===== src/Api/Orgs/Items.antt =====
-- The shared collections and entries of app/api/orgs.py.
use open_key_server.Base.{
  ℕ, String, Bool, true, false, not, ◌+◌, ◌&&◌, ◌||◌, Option, none, some, List, ◌==◌, nat_eq,
  string_eq, leb, order_by, if◌then◌else◌,
}
use open_key_server.Models.Account.{User}
use open_key_server.Models.Orgs.{OrgCollection, OrgEntry}
use open_key_server.Orm.Session.{M, http, integrity_error, pure, guard, or_raise, ◌>>=◌, ◌>>◌}
use open_key_server.Orm.Tables.{select_first, select_all, add, save}
use open_key_server.Orm.Schema.{org_collection_table, org_entry_table}
use open_key_server.Schemas.Fields.{Patch, set_nullable, set_required, is_null}
use open_key_server.Schemas.Orgs.{
  OrgCollectionCreate, OrgCollectionUpdate, OrgEntryCreate, OrgEntryUpdate,
}
use open_key_server.Text.{is_empty}
use open_key_server.Api.Request.{Env, is_none}
use open_key_server.Api.Orgs.{get_org_or_404, require_active_member, require_admin}

abbrev pub has_collection : ℕ → String → OrgCollection → Bool
has_collection org_id uuid c = c.org_id == org_id && c.uuid == uuid

abbrev pub has_live_collection : ℕ → String → OrgCollection → Bool
has_live_collection org_id uuid c = has_collection org_id uuid c && not c.is_deleted

unfoldable pub list_org_collections : User → String → M (List OrgCollection)
list_org_collections user uuid = do
  org ← get_org_or_404 uuid
  require_active_member org user
  rows ← select_all {R = OrgCollection} (λ c. c.org_id == org.id && not c.is_deleted)
  pure (order_by (λ a b. leb a.created_at b.created_at) rows)

abbrev pub new_collection : Env → ℕ → OrgCollectionCreate → OrgCollection
new_collection env org_id body = record {
  id = env.new_id;
  org_id = org_id;
  uuid = body.uuid;
  encrypted_name = body.encrypted_name;
  revision = body.revision;
  is_deleted = false;
  created_at = env.db_now;
  updated_at = env.db_now;
}

abbrev pub revived_collection : Env → OrgCollectionCreate → OrgCollection → OrgCollection
revived_collection env body c = record c {
  encrypted_name = body.encrypted_name;
  revision = body.revision;
  is_deleted = false;
  updated_at = env.now;
}

-- A deleted row with the same uuid comes back to life.
unfoldable pub put_collection :
    Env → ℕ → OrgCollectionCreate → Option OrgCollection → M OrgCollection
put_collection env org_id body none = do
  add (new_collection env org_id body)
  pure (new_collection env org_id body)
put_collection env org_id body (some existing) = do
  guard existing.is_deleted (http 409 "Collection with this uuid already exists")
  save (revived_collection env body existing)
  pure (revived_collection env body existing)

unfoldable pub create_org_collection : Env → User → String → OrgCollectionCreate → M OrgCollection
create_org_collection env user uuid body = do
  org ← get_org_or_404 uuid
  require_active_member org user
  existing ← select_first (has_collection org.id body.uuid)
  put_collection env org.id body existing

abbrev pub updated_collection : Env → OrgCollectionUpdate → OrgCollection → OrgCollection
updated_collection env body c = record c {
  encrypted_name = set_required body.encrypted_name c.encrypted_name;
  revision = set_required body.revision c.revision;
  is_deleted = set_required body.is_deleted c.is_deleted;
  updated_at = env.now;
}

-- A field of a NOT NULL column was sent as null.
unfoldable pub nulls_collection : OrgCollectionUpdate → Bool
nulls_collection b = is_null b.encrypted_name || is_null b.revision || is_null b.is_deleted

unfoldable pub update_org_collection :
    Env → User → String → String → OrgCollectionUpdate → M OrgCollection
update_org_collection env user uuid collection_uuid body = do
  org ← get_org_or_404 uuid
  require_active_member org user
  found ← select_first (has_live_collection org.id collection_uuid)
  collection ← or_raise found (http 404 "Collection not found")
  guard (not (nulls_collection body)) integrity_error
  save (updated_collection env body collection)
  pure (updated_collection env body collection)

abbrev pub deleted_collection : Env → OrgCollection → OrgCollection
deleted_collection env c = record c {
  is_deleted = true;
  revision = c.revision + 1;
  updated_at = env.now;
}

unfoldable pub delete_org_collection : Env → User → String → String → M (Unit {0})
delete_org_collection env user uuid collection_uuid = do
  org ← get_org_or_404 uuid
  require_admin org user
  found ← select_first (has_live_collection org.id collection_uuid)
  collection ← or_raise found (http 404 "Collection not found")
  save (deleted_collection env collection)
  pure tt

unfoldable pub list_org_entries : User → String → M (List OrgEntry)
list_org_entries user uuid = do
  org ← get_org_or_404 uuid
  require_active_member org user
  rows ← select_all {R = OrgEntry} (λ e. e.org_id == org.id && not e.is_deleted)
  pure (order_by (λ a b. leb a.created_at b.created_at) rows)

abbrev pub has_entry : ℕ → String → OrgEntry → Bool
has_entry org_id uuid e = e.org_id == org_id && e.uuid == uuid

abbrev pub has_live_entry : ℕ → String → OrgEntry → Bool
has_live_entry org_id uuid e = has_entry org_id uuid e && not e.is_deleted

unfoldable pub require_collection : ℕ → String → M (Unit {0})
require_collection org_id uuid = do
  found ← select_first (has_live_collection org_id uuid)
  guard (not (is_none found)) (http 400 "Org collection not found")

-- `if collection_uuid: …`, null and the empty text being false.
unfoldable pub require_named_collection : ℕ → Option String → M (Unit {0})
require_named_collection org_id none = pure tt
require_named_collection org_id (some uuid) =
    if is_empty uuid then pure tt else require_collection org_id uuid

unfoldable pub require_patched_collection : ℕ → Patch String → M (Unit {0})
require_patched_collection org_id none = pure tt
require_patched_collection org_id (some collection_uuid) =
    require_named_collection org_id collection_uuid

abbrev pub new_entry : Env → ℕ → OrgEntryCreate → OrgEntry
new_entry env org_id body = record {
  id = env.new_id;
  org_id = org_id;
  uuid = body.uuid;
  collection_uuid = body.collection_uuid;
  encrypted_payload = body.encrypted_payload;
  revision = body.revision;
  is_deleted = false;
  created_at = env.db_now;
  updated_at = env.db_now;
}

abbrev pub revived_entry : Env → OrgEntryCreate → OrgEntry → OrgEntry
revived_entry env body e = record e {
  collection_uuid = body.collection_uuid;
  encrypted_payload = body.encrypted_payload;
  revision = body.revision;
  is_deleted = false;
  updated_at = env.now;
}

unfoldable pub put_entry : Env → ℕ → OrgEntryCreate → Option OrgEntry → M OrgEntry
put_entry env org_id body none = do
  add (new_entry env org_id body)
  pure (new_entry env org_id body)
put_entry env org_id body (some existing) = do
  guard existing.is_deleted (http 409 "Entry with this uuid already exists")
  save (revived_entry env body existing)
  pure (revived_entry env body existing)

unfoldable pub create_org_entry : Env → User → String → OrgEntryCreate → M OrgEntry
create_org_entry env user uuid body = do
  org ← get_org_or_404 uuid
  require_active_member org user
  require_named_collection org.id body.collection_uuid
  existing ← select_first (has_entry org.id body.uuid)
  put_entry env org.id body existing

abbrev pub updated_entry : Env → OrgEntryUpdate → OrgEntry → OrgEntry
updated_entry env body e = record e {
  collection_uuid = set_nullable body.collection_uuid e.collection_uuid;
  encrypted_payload = set_required body.encrypted_payload e.encrypted_payload;
  revision = set_required body.revision e.revision;
  is_deleted = set_required body.is_deleted e.is_deleted;
  updated_at = env.now;
}

unfoldable pub nulls_entry : OrgEntryUpdate → Bool
nulls_entry b = is_null b.encrypted_payload || is_null b.revision || is_null b.is_deleted

unfoldable pub update_org_entry : Env → User → String → String → OrgEntryUpdate → M OrgEntry
update_org_entry env user uuid entry_uuid body = do
  org ← get_org_or_404 uuid
  require_active_member org user
  found ← select_first (has_live_entry org.id entry_uuid)
  entry ← or_raise found (http 404 "Entry not found")
  require_patched_collection org.id body.collection_uuid
  guard (not (nulls_entry body)) integrity_error
  save (updated_entry env body entry)
  pure (updated_entry env body entry)

abbrev pub deleted_entry : Env → OrgEntry → OrgEntry
deleted_entry env e = record e {
  is_deleted = true;
  revision = e.revision + 1;
  updated_at = env.now;
}

unfoldable pub delete_org_entry : Env → User → String → String → M (Unit {0})
delete_org_entry env user uuid entry_uuid = do
  org ← get_org_or_404 uuid
  require_active_member org user
  found ← select_first (has_live_entry org.id entry_uuid)
  entry ← or_raise found (http 404 "Entry not found")
  save (deleted_entry env entry)
  pure tt
