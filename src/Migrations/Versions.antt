-- ===== src/Migrations/Versions.antt =====
-- alembic/versions, from 002_refresh_tokens.py to 005_collection_icon_color.py, and their order.
use open_key_server.Base.{Option, none, some, List, [], ◌∷◌}
use open_key_server.Migrations.Catalog.{
  uuid_type, boolean, integer, big_integer, text, timestamp_tz, varchar, SqlTable, cascade, Op,
  create_table, create_index, alter_column, drop_index, drop_table,
}
use open_key_server.Migrations.Columns.{
  required, optional, id, now_by_default, string, references, unique, index_on,
}
use open_key_server.Migrations.Initial.{upgrade_initial, downgrade_initial}

abbrev pub refresh_tokens : SqlTable
refresh_tokens = record {
  name = "refresh_tokens";
  columns =
      id
      ∷ required "user_id" uuid_type
      ∷ required "token_hash" (string 64)
      ∷ required "expires_at" timestamp_tz
      ∷ optional "revoked_at" timestamp_tz
      ∷ now_by_default "created_at"
      ∷ [];
  foreign_keys = references "user_id" "users" cascade ∷ [];
  primary_key = "id" ∷ [];
  uniques = record { name = none; columns = "token_hash" ∷ [] } ∷ [];
  indexes = [];
}

abbrev pub upgrade_refresh_tokens : List Op
upgrade_refresh_tokens =
    create_table refresh_tokens
    ∷ create_index "refresh_tokens" (index_on "ix_refresh_tokens_user_id" ("user_id" ∷ []))
    ∷ []

abbrev pub downgrade_refresh_tokens : List Op
downgrade_refresh_tokens = drop_index "ix_refresh_tokens_user_id" ∷ drop_table "refresh_tokens" ∷ []

abbrev pub org_entries : SqlTable
org_entries = record {
  name = "org_entries";
  columns =
      id
      ∷ required "org_id" uuid_type
      ∷ required "uuid" (string 64)
      ∷ optional "collection_uuid" (string 64)
      ∷ required "encrypted_payload" (varchar none)
      ∷ record (required "revision" integer) { server_default = some "1" }
      ∷ record (required "is_deleted" boolean) { server_default = some "false" }
      ∷ now_by_default "created_at"
      ∷ now_by_default "updated_at"
      ∷ [];
  foreign_keys = references "org_id" "orgs" cascade ∷ [];
  primary_key = "id" ∷ [];
  uniques = unique "uq_org_entries_org_uuid" ("org_id" ∷ "uuid" ∷ []) ∷ [];
  indexes = [];
}

abbrev pub upgrade_org_entries : List Op
upgrade_org_entries =
    create_table org_entries
    ∷ create_index "org_entries" (index_on "ix_org_entries_org_id" ("org_id" ∷ []))
    ∷ []

abbrev pub downgrade_org_entries : List Op
downgrade_org_entries = drop_index "ix_org_entries_org_id" ∷ drop_table "org_entries" ∷ []

abbrev pub upgrade_sync_indexes : List Op
upgrade_sync_indexes =
    create_index "collections"
      (index_on "ix_collections_user_updated_at" ("user_id" ∷ "updated_at" ∷ []))
    ∷ create_index "entries" (index_on "ix_entries_user_updated_at" ("user_id" ∷ "updated_at" ∷ []))
    ∷ create_index "attachments"
        (index_on "ix_attachments_user_updated_at" ("user_id" ∷ "updated_at" ∷ []))
    ∷ []

abbrev pub downgrade_sync_indexes : List Op
downgrade_sync_indexes =
    drop_index "ix_attachments_user_updated_at"
    ∷ drop_index "ix_entries_user_updated_at"
    ∷ drop_index "ix_collections_user_updated_at"
    ∷ []

abbrev pub upgrade_icon_color : List Op
upgrade_icon_color =
    alter_column "collections" "icon" (string 255) text
    ∷ alter_column "collections" "color" integer big_integer
    ∷ []

abbrev pub downgrade_icon_color : List Op
downgrade_icon_color =
    alter_column "collections" "color" big_integer integer
    ∷ alter_column "collections" "icon" text (string 255)
    ∷ []

pub data Revision : Type 0 where
  initial_schema refresh_tokens_added org_entries_added sync_updated_at_indexes
        collection_icon_color :
      Revision

unfoldable pub down_revision : Revision → Option Revision
down_revision initial_schema = none
down_revision refresh_tokens_added = some initial_schema
down_revision org_entries_added = some refresh_tokens_added
down_revision sync_updated_at_indexes = some org_entries_added
down_revision collection_icon_color = some sync_updated_at_indexes

abbrev pub head : Revision
head = collection_icon_color

unfoldable pub upgrade : Revision → List Op
upgrade initial_schema = upgrade_initial
upgrade refresh_tokens_added = upgrade_refresh_tokens
upgrade org_entries_added = upgrade_org_entries
upgrade sync_updated_at_indexes = upgrade_sync_indexes
upgrade collection_icon_color = upgrade_icon_color

unfoldable pub downgrade : Revision → List Op
downgrade initial_schema = downgrade_initial
downgrade refresh_tokens_added = downgrade_refresh_tokens
downgrade org_entries_added = downgrade_org_entries
downgrade sync_updated_at_indexes = downgrade_sync_indexes
downgrade collection_icon_color = downgrade_icon_color
