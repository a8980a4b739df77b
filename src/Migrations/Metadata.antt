-- ===== src/Migrations/Metadata.antt =====
-- `Base.metadata` of app/db/base.py: the tables that app/models declares, a table after those it refers to.
mod Vault
mod Sharing
use open_key_server.Base.{List, [], ◌∷◌}
use open_key_server.Migrations.Catalog.{SqlTable}
use Vault.{user_table, collection_table, entry_table, attachment_table, refresh_token_table}
use Sharing.{org_table, org_member_table, org_collection_table, org_entry_table, share_table}

abbrev pub metadata : List SqlTable
metadata =
    user_table ∷ attachment_table ∷ collection_table ∷ entry_table ∷ org_table ∷ refresh_token_table
    ∷ share_table ∷ org_collection_table ∷ org_entry_table ∷ org_member_table ∷ []
