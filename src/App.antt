-- ===== src/App.antt =====
-- app/main.py: the requests of all routers that write, over the database that app/db starts with.
use open_key_server.Base.{String, List, [], ◌∷◌}
use open_key_server.Models.{Db}
use open_key_server.Models.Account.{User}
use open_key_server.Orm.Session.{get_db}
use open_key_server.Orm.Integrity.{IsConsistent}
use open_key_server.Orm.Keeps.{Keeps-get_db}
use open_key_server.Schemas.Auth.{RegisterRequest, LoginRequest, KeysUpdateRequest, RekeyRequest}
use open_key_server.Schemas.Orgs.{
  OrgCollectionCreate, OrgCollectionUpdate, OrgEntryCreate, OrgEntryUpdate,
}
use open_key_server.Services.Auth.{Library, Settings, Draw}
use open_key_server.Api.Request.{Env}
use open_key_server.Api.Vault
use open_key_server.Api.Shares.Lifecycle
use open_key_server.Api.Orgs.Governance
use open_key_server.Api.Orgs.Items.{
  create_org_collection, update_org_collection, delete_org_collection, create_org_entry,
  update_org_entry, delete_org_entry,
}
use open_key_server.Api.Orgs.Integrity.{
  create_org_collection-Keeps, update_org_collection-Keeps, delete_org_collection-Keeps,
  create_org_entry-Keeps, update_org_entry-Keeps, delete_org_entry-Keeps,
}
use open_key_server.Api.Auth.{register, login, refresh, logout, delete_account, update_keys, rekey}
use open_key_server.Api.Auth.Integrity.{
  register-Keeps, login-Keeps, refresh-Keeps, logout-Keeps, delete_account-Keeps, update_keys-Keeps,
  rekey-Keeps,
}

-- A request, with the user whom its token names.
pub data Request : Type 0 where
  vault : Vault.Request → Request
  share : Lifecycle.Request → Request
  membership : Governance.Request → Request
  registers : Draw → RegisterRequest → Request
  logs_in : Draw → LoginRequest → Request
  refreshes : Draw → String → Request
  logs_out : Env → String → Request
  deletes_account : User → String → Request
  updates_keys : Env → User → KeysUpdateRequest → Request
  rekeys : Env → User → RekeyRequest → Request
  creates_org_collection : Env → User → String → OrgCollectionCreate → Request
  updates_org_collection : Env → User → String → String → OrgCollectionUpdate → Request
  creates_org_entry : Env → User → String → OrgEntryCreate → Request
  updates_org_entry : Env → User → String → String → OrgEntryUpdate → Request
  deletes_org_collection deletes_org_entry : Env → User → String → String → Request

-- The database after the migrations, before the first request.
abbrev pub empty_db : Db
empty_db = record {
  users = [];
  refresh_tokens = [];
  collections = [];
  entries = [];
  attachments = [];
  orgs = [];
  org_members = [];
  org_collections = [];
  org_entries = [];
  shares = [];
}

pub empty_db-IsConsistent : IsConsistent empty_db
empty_db-IsConsistent = record {
  users_keys = tt;
  refresh_tokens_keys = tt;
  collections_keys = tt;
  entries_keys = tt;
  attachments_keys = tt;
  orgs_keys = tt;
  org_members_keys = tt;
  org_collections_keys = tt;
  org_entries_keys = tt;
  shares_keys = tt;
}

module _ (lib : Library) (settings : Settings) where
  unfoldable pub serve : Request → Db → Db
  serve (vault q) d = Vault.serve q d
  serve (share q) d = Lifecycle.serve q d
  serve (membership q) d = Governance.serve q d
  serve (registers draw body) d = (get_db (register lib settings draw body) d).1
  serve (logs_in draw body) d = (get_db (login lib settings draw body) d).1
  serve (refreshes draw raw) d = (get_db (refresh lib settings draw raw) d).1
  serve (logs_out env raw) d = (get_db (logout lib env raw) d).1
  serve (deletes_account user hash) d = (get_db (delete_account user hash) d).1
  serve (updates_keys env user body) d = (get_db (update_keys env user body) d).1
  serve (rekeys env user body) d = (get_db (rekey env user body) d).1
  serve (creates_org_collection env user org body) d =
      (get_db (create_org_collection env user org body) d).1
  serve (updates_org_collection env user org uuid body) d =
      (get_db (update_org_collection env user org uuid body) d).1
  serve (creates_org_entry env user org body) d = (get_db (create_org_entry env user org body) d).1
  serve (updates_org_entry env user org uuid body) d =
      (get_db (update_org_entry env user org uuid body) d).1
  serve (deletes_org_collection env user org uuid) d =
      (get_db (delete_org_collection env user org uuid) d).1
  serve (deletes_org_entry env user org uuid) d = (get_db (delete_org_entry env user org uuid) d).1

  unfoldable pub serve_all : List Request → Db → Db
  unfolding serve
  serve_all [] d = d
  serve_all (q ∷ qs) d = serve_all qs (serve q d)

  serve-IsConsistent : (q : Request) (d : Db) → IsConsistent d → IsConsistent (serve q d)
  unfolding serve
  serve-IsConsistent (vault q) d k = Vault.serve-IsConsistent q d k
  serve-IsConsistent (share q) d k = Lifecycle.serve-IsConsistent q d k
  serve-IsConsistent (membership q) d k = Governance.serve-IsConsistent q d k
  serve-IsConsistent (registers draw body) d k =
      Keeps-get_db _ d (register-Keeps lib settings draw body) k
  serve-IsConsistent (logs_in draw body) d k =
      Keeps-get_db _ d (login-Keeps lib settings draw body) k
  serve-IsConsistent (refreshes draw raw) d k =
      Keeps-get_db _ d (refresh-Keeps lib settings draw raw) k
  serve-IsConsistent (logs_out env raw) d k = Keeps-get_db _ d (logout-Keeps lib env raw) k
  serve-IsConsistent (deletes_account user hash) d k =
      Keeps-get_db _ d (delete_account-Keeps user hash) k
  serve-IsConsistent (updates_keys env user body) d k =
      Keeps-get_db _ d (update_keys-Keeps env user body) k
  serve-IsConsistent (rekeys env user body) d k = Keeps-get_db _ d (rekey-Keeps env user body) k
  serve-IsConsistent (creates_org_collection env user org body) d k =
      Keeps-get_db _ d (create_org_collection-Keeps env user org body) k
  serve-IsConsistent (updates_org_collection env user org uuid body) d k =
      Keeps-get_db _ d (update_org_collection-Keeps env user org uuid body) k
  serve-IsConsistent (creates_org_entry env user org body) d k =
      Keeps-get_db _ d (create_org_entry-Keeps env user org body) k
  serve-IsConsistent (updates_org_entry env user org uuid body) d k =
      Keeps-get_db _ d (update_org_entry-Keeps env user org uuid body) k
  serve-IsConsistent (deletes_org_collection env user org uuid) d k =
      Keeps-get_db _ d (delete_org_collection-Keeps env user org uuid) k
  serve-IsConsistent (deletes_org_entry env user org uuid) d k =
      Keeps-get_db _ d (delete_org_entry-Keeps env user org uuid) k

  serve_all-IsConsistent :
      (qs : List Request) (d : Db) → IsConsistent d → IsConsistent (serve_all qs d)
  unfolding serve_all
  serve_all-IsConsistent [] d k = k
  serve_all-IsConsistent (q ∷ qs) d k =
      serve_all-IsConsistent qs (serve q d) (serve-IsConsistent q d k)

  -- In every database that requests can lead to from the empty one, no two rows of a table share
  -- a primary key or the columns of a unique constraint.
  pub reachable-IsConsistent : (qs : List Request) → IsConsistent (serve_all qs empty_db)
  reachable-IsConsistent qs = serve_all-IsConsistent qs empty_db empty_db-IsConsistent
