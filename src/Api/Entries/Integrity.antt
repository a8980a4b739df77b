-- ===== src/Api/Entries/Integrity.antt =====
-- The endpoints of app/api/entries.py and the constraints of the database.
use open_key_server.Base.{ℕ, String, Option, none, some}
use open_key_server.Models.Account.{User}
use open_key_server.Orm.Integrity.{IsConsistent, write_rules}
use open_key_server.Orm.Keeps.{Keeps, keeps_rules}
use open_key_server.Schemas.Fields.{Patch}
use open_key_server.Schemas.Entries.{EntryCreate, EntryUpdate}
use open_key_server.Api.Request.{Env}
use open_key_server.Api.Entries.{
  require_owned_collection, require_patched_collection, list_entries, create_entry, update_entry,
  delete_entry,
}

ruleset rules = (keeps_rules, write_rules)

pub require-Keeps : (u : ℕ) (c : Option String) → Keeps IsConsistent (require_owned_collection u c)
unfolding require_owned_collection
require-Keeps u none = search rules
require-Keeps u (some uuid) = search rules depth 12

pub require_patched-Keeps :
    (u : ℕ) (c : Patch String) → Keeps IsConsistent (require_patched_collection u c)
unfolding require_patched_collection
require_patched-Keeps u none = search rules
require_patched-Keeps u (some c) = require-Keeps u c

module _ (env : Env) (user : User) where
  pub list-Keeps : Keeps IsConsistent (list_entries user)
  unfolding list_entries
  list-Keeps = search rules

  pub create-Keeps : (body : EntryCreate) → Keeps IsConsistent (create_entry env user body)
  unfolding create_entry
  create-Keeps body = search (rules, require-Keeps) depth 16

  pub update-Keeps :
      (uuid : String) (body : EntryUpdate) → Keeps IsConsistent (update_entry env user uuid body)
  unfolding update_entry
  update-Keeps uuid body = search (rules, require_patched-Keeps) depth 16

  pub delete-Keeps : (uuid : String) → Keeps IsConsistent (delete_entry env user uuid)
  unfolding delete_entry
  delete-Keeps uuid = search rules depth 16
