-- ===== src/Api/Collections/Integrity.antt =====
-- The endpoints of app/api/collections.py and the constraints of the database.
use open_key_server.Models.Account.{User}
use open_key_server.Orm.Integrity.{IsConsistent, write_rules}
use open_key_server.Orm.Keeps.{Keeps, keeps_rules}
use open_key_server.Schemas.Collections.{CollectionCreate, CollectionUpdate}
use open_key_server.Api.Request.{Env}
use open_key_server.Api.Collections.{
  list_collections, create_collection, update_collection, delete_collection,
}
use open_key_server.Base.{String}

ruleset rules = (keeps_rules, write_rules)

module _ (env : Env) (user : User) where
  pub list-Keeps : Keeps IsConsistent (list_collections user)
  unfolding list_collections
  list-Keeps = search rules depth 16

  pub create-Keeps :
      (body : CollectionCreate) → Keeps IsConsistent (create_collection env user body)
  unfolding create_collection
  create-Keeps body = search rules depth 16

  pub update-Keeps :
      (uuid : String) (body : CollectionUpdate)
      → Keeps IsConsistent (update_collection env user uuid body)
  unfolding update_collection
  update-Keeps uuid body = search rules depth 16

  pub delete-Keeps : (uuid : String) → Keeps IsConsistent (delete_collection env user uuid)
  unfolding delete_collection
  delete-Keeps uuid = search rules depth 16
