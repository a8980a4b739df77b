-- ===== src/Models.antt =====
-- app/models/: the tables of the database, each the list of its rows.
pub mod Account
pub mod Vault
pub mod Orgs
pub mod Shares
use open_key_server.Base.{List}
use Account.{User, RefreshToken}
use Vault.{Collection, Entry, Attachment}
use Orgs.{Org, OrgMember, OrgCollection, OrgEntry}
use Shares.{Share}

pub record Db : Type 0 where
  pub users : List User
  pub refresh_tokens : List RefreshToken
  pub collections : List Collection
  pub entries : List Entry
  pub attachments : List Attachment
  pub orgs : List Org
  pub org_members : List OrgMember
  pub org_collections : List OrgCollection
  pub org_entries : List OrgEntry
  pub shares : List Share
