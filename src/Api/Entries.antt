-- ===== src/Api/Entries.antt =====
-- app/api/entries.py: the entries of a user's vault.
pub mod Effects
pub mod Outcomes
pub mod Integrity
use open_key_server.Base.{
  ℕ, String, Bool, true, false, not, ◌+◌, ◌&&◌, ◌||◌, Option, none, some, List, ◌==◌, nat_eq,
  string_eq, leb, order_by, if◌then◌else◌,
}
use open_key_server.Models.Account.{User}
use open_key_server.Models.Vault.{Collection, Entry}
use open_key_server.Orm.Session.{M, http, integrity_error, pure, guard, or_raise, ◌>>=◌, ◌>>◌}
use open_key_server.Orm.Tables.{select_first, select_all, add, save}
use open_key_server.Orm.Schema.{collection_table, entry_table}
use open_key_server.Schemas.Fields.{Patch, set_nullable, set_required, is_null}
use open_key_server.Schemas.Entries.{EntryCreate, EntryUpdate}
use open_key_server.Text.{is_empty}
use open_key_server.Api.Request.{Env, is_none}
use open_key_server.Api.Collections

abbrev pub owns : ℕ → String → Entry → Bool
owns user_id uuid e = e.user_id == user_id && e.uuid == uuid

abbrev pub owns_live : ℕ → String → Entry → Bool
owns_live user_id uuid e = owns user_id uuid e && not e.is_deleted

abbrev require_some : M (Option Collection) → M (Unit {0})
require_some query = do found ← query; guard (not (is_none found)) (http 400 "Collection not found")

-- Null and the empty text mean unfiled.
unfoldable pub require_owned_collection : ℕ → Option String → M (Unit {0})
require_owned_collection user_id none = pure tt
require_owned_collection user_id (some uuid) =
    if is_empty uuid
    then pure tt
    else require_some (select_first (Collections.owns_live user_id uuid))

unfoldable pub list_entries : User → M (List Entry)
list_entries user = do
  rows ← select_all (λ e. e.user_id == user.id && not e.is_deleted)
  pure (order_by (λ a b. leb a.created_at b.created_at) rows)

abbrev pub new_entry : Env → User → EntryCreate → Entry
new_entry env user body = record {
  id = env.new_id;
  user_id = user.id;
  uuid = body.uuid;
  collection_uuid = body.collection_uuid;
  encrypted_payload = body.encrypted_payload;
  revision = body.revision;
  is_deleted = false;
  created_at = env.db_now;
  updated_at = env.db_now;
}

unfoldable pub create_entry : Env → User → EntryCreate → M Entry
create_entry env user body = do
  existing ← select_first (owns user.id body.uuid)
  guard (is_none existing) (http 409 "Entry with this uuid already exists")
  require_owned_collection user.id body.collection_uuid
  add (new_entry env user body)
  pure (new_entry env user body)

abbrev pub updated : ℕ → EntryUpdate → Entry → Entry
updated now body e = record e {
  collection_uuid = set_nullable body.collection_uuid e.collection_uuid;
  encrypted_payload = set_required body.encrypted_payload e.encrypted_payload;
  revision = set_required body.revision e.revision;
  is_deleted = set_required body.is_deleted e.is_deleted;
  updated_at = now;
}

-- A field of a NOT NULL column was sent as null.
unfoldable pub has_null : EntryUpdate → Bool
has_null body = is_null body.encrypted_payload || is_null body.revision || is_null body.is_deleted

-- `if "collection_uuid" in data: …`
unfoldable pub require_patched_collection : ℕ → Patch String → M (Unit {0})
unfolding require_owned_collection
require_patched_collection user_id none = pure tt
require_patched_collection user_id (some collection_uuid) =
    require_owned_collection user_id collection_uuid

unfoldable pub update_entry : Env → User → String → EntryUpdate → M Entry
update_entry env user uuid body = do
  found ← select_first (owns_live user.id uuid)
  entry ← or_raise found (http 404 "Entry not found")
  require_patched_collection user.id body.collection_uuid
  guard (not (has_null body)) integrity_error
  save (updated env.now body entry)
  pure (updated env.now body entry)

abbrev pub deleted : ℕ → Entry → Entry
deleted now e = record e { is_deleted = true; revision = e.revision + 1; updated_at = now }

unfoldable pub delete_entry : Env → User → String → M (Unit {0})
delete_entry env user uuid = do
  found ← select_first (owns_live user.id uuid)
  entry ← or_raise found (http 404 "Entry not found")
  save (deleted env.now entry)
  pure tt
