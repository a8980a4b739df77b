-- ===== src/Api/Shares/Integrity.antt =====
-- The endpoints of app/api/shares.py and the constraints of the database.
use open_key_server.Base.{ℕ, String, Option, none, some}
use open_key_server.Models.Account.{User}
use open_key_server.Orm.Integrity.{IsConsistent, write_rules}
use open_key_server.Orm.Keeps.{Keeps, keeps_rules}
use open_key_server.Schemas.Shares.{ShareCreate}
use open_key_server.Api.Request.{Env}
use open_key_server.Api.Shares.{
  find_recipient, list_shares, create_share, accept_share, revoke_share,
}

ruleset rules = (keeps_rules, write_rules)

find-Keeps : (i : Option ℕ) (e : Option String) → Keeps IsConsistent (find_recipient i e)
unfolding find_recipient
find-Keeps (some i) e = search rules depth 12
find-Keeps none (some e) = search rules depth 12
find-Keeps none none = search rules

pub list-Keeps : (user : User) → Keeps IsConsistent (list_shares user)
unfolding list_shares
list-Keeps user = search rules depth 12

module _ (env : Env) (user : User) where
  pub create-Keeps : (body : ShareCreate) → Keeps IsConsistent (create_share env user body)
  unfolding create_share
  create-Keeps body = search (rules, find-Keeps) depth 16

  pub accept-Keeps : (uuid : String) → Keeps IsConsistent (accept_share env user uuid)
  unfolding accept_share
  accept-Keeps uuid = search rules depth 20

  pub revoke-Keeps : (uuid : String) → Keeps IsConsistent (revoke_share env user uuid)
  unfolding revoke_share
  revoke-Keeps uuid = search rules depth 20
