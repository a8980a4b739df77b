-- ===== src/Api/Sync/Endpoint/Integrity.antt =====
-- POST /sync and the constraints of the database.
use open_key_server.Base.{ℕ, List}
use open_key_server.Models.Account.{User}
use open_key_server.Orm.Integrity.{IsConsistent, Constrains, write_rules}
use open_key_server.Orm.Keeps.{Keeps, keeps_rules}
use open_key_server.Orm.Tables.{Table}
use open_key_server.Schemas.Sync.{SyncRequest}
use open_key_server.Api.Request.{Env}
use open_key_server.Api.Sync.Push.{Tracked, Pushed, Pushing, flush_row, push}
use open_key_server.Api.Sync.Endpoint.{pull, latest, pull_all, sync_vault}

ruleset rules = (keeps_rules, write_rules)

module _ {R Item : Type 0} ⦃t : Table R⦄ (k : Constrains t IsConsistent) (p : Pushing R Item) where
  flush_row-Keeps : (x : Tracked R) → Keeps IsConsistent (flush_row p x)
  unfolding flush_row
  flush_row-Keeps x = search (rules, k)

  push-Keeps : (user_id n : ℕ) (items : List Item) → Keeps IsConsistent (push p user_id n items)
  unfolding push
  push-Keeps user_id n items = search (rules, flush_row-Keeps) depth 12

module _ {R Item : Type 0} ⦃t : Table R⦄ (p : Pushing R Item) (user_id : ℕ) where
  pull-Keeps : (since : ℕ) (held : Pushed R) → Keeps IsConsistent (pull p user_id since held)
  unfolding pull
  pull-Keeps since held = search rules

  latest-Keeps : Keeps IsConsistent (latest p user_id)
  unfolding latest
  latest-Keeps = search rules

pub sync_vault-Keeps :
    (env : Env) (new_id : ℕ → ℕ) (user : User) (body : SyncRequest)
    → Keeps IsConsistent (sync_vault env new_id user body)
unfolding sync_vault pull_all
sync_vault-Keeps env new_id user body =
    search (rules, push-Keeps, pull-Keeps, latest-Keeps) depth 24
