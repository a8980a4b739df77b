-- ===== src/Migrations/Initial.antt =====
-- alembic/versions/001_initial_schema.py
use open_key_server.Base.{true, none, List, [], ◌∷◌}
use open_key_server.Migrations.Catalog.{
  uuid_type, boolean, integer, big_integer, jsonb, large_binary, varchar, SqlTable, cascade,
  set_null, Op, create_table, create_index, drop_index, drop_table,
}
use open_key_server.Migrations.Columns.{
  required, optional, id, now_by_default, string, references, unique, index_on,
}

abbrev pub users : SqlTable
users = record {
  name = "users";
  columns =
      id
      ∷ required "email" (string 320)
      ∷ required "auth_hash" (string 512)
      ∷ required "encrypted_vault_key" (varchar none)
      ∷ required "kdf_params" jsonb
      ∷ required "salt" (string 512)
      ∷ optional "public_key" (varchar none)
      ∷ optional "encrypted_private_key" (varchar none)
      ∷ now_by_default "created_at"
      ∷ now_by_default "updated_at"
      ∷ [];
  foreign_keys = [];
  primary_key = "id" ∷ [];
  uniques = [];
  indexes = [];
}

abbrev pub collections : SqlTable
collections = record {
  name = "collections";
  columns =
      id
      ∷ required "user_id" uuid_type
      ∷ required "uuid" (string 64)
      ∷ required "encrypted_name" (varchar none)
      ∷ required "icon" (string 255)
      ∷ optional "color" integer
      ∷ optional "parent_uuid" (string 64)
      ∷ required "sort_order" integer
      ∷ required "revision" integer
      ∷ required "is_deleted" boolean
      ∷ now_by_default "created_at"
      ∷ now_by_default "updated_at"
      ∷ [];
  foreign_keys = references "user_id" "users" cascade ∷ [];
  primary_key = "id" ∷ [];
  uniques = unique "uq_collections_user_uuid" ("user_id" ∷ "uuid" ∷ []) ∷ [];
  indexes = [];
}

abbrev pub entries : SqlTable
entries = record {
  name = "entries";
  columns =
      id
      ∷ required "user_id" uuid_type
      ∷ required "uuid" (string 64)
      ∷ optional "collection_uuid" (string 64)
      ∷ required "encrypted_payload" (varchar none)
      ∷ required "revision" integer
      ∷ required "is_deleted" boolean
      ∷ now_by_default "created_at"
      ∷ now_by_default "updated_at"
      ∷ [];
  foreign_keys = references "user_id" "users" cascade ∷ [];
  primary_key = "id" ∷ [];
  uniques = unique "uq_entries_user_uuid" ("user_id" ∷ "uuid" ∷ []) ∷ [];
  indexes = [];
}

abbrev pub attachments : SqlTable
attachments = record {
  name = "attachments";
  columns =
      id
      ∷ required "user_id" uuid_type
      ∷ required "uuid" (string 64)
      ∷ required "entry_uuid" (string 64)
      ∷ required "filename" (string 512)
      ∷ required "size_bytes" big_integer
      ∷ required "encrypted_blob" large_binary
      ∷ optional "content_type" (string 255)
      ∷ required "revision" integer
      ∷ required "is_deleted" boolean
      ∷ now_by_default "created_at"
      ∷ now_by_default "updated_at"
      ∷ [];
  foreign_keys = references "user_id" "users" cascade ∷ [];
  primary_key = "id" ∷ [];
  uniques = unique "uq_attachments_user_uuid" ("user_id" ∷ "uuid" ∷ []) ∷ [];
  indexes = [];
}

abbrev pub orgs : SqlTable
orgs = record {
  name = "orgs";
  columns =
      id
      ∷ required "uuid" (string 64)
      ∷ required "encrypted_name" (varchar none)
      ∷ required "owner_user_id" uuid_type
      ∷ required "revision" integer
      ∷ now_by_default "created_at"
      ∷ now_by_default "updated_at"
      ∷ [];
  foreign_keys = references "owner_user_id" "users" cascade ∷ [];
  primary_key = "id" ∷ [];
  uniques = unique "uq_orgs_uuid" ("uuid" ∷ []) ∷ [];
  indexes = [];
}

abbrev pub shares : SqlTable
shares = record {
  name = "shares";
  columns =
      id
      ∷ required "uuid" (string 64)
      ∷ required "owner_user_id" uuid_type
      ∷ optional "recipient_user_id" uuid_type
      ∷ optional "recipient_email" (string 320)
      ∷ optional "entry_uuid" (string 64)
      ∷ optional "collection_uuid" (string 64)
      ∷ required "wrapped_item_key" (varchar none)
      ∷ optional "encrypted_payload" (varchar none)
      ∷ required "status" (string 32)
      ∷ required "revision" integer
      ∷ now_by_default "created_at"
      ∷ now_by_default "updated_at"
      ∷ [];
  foreign_keys =
      references "owner_user_id" "users" cascade
      ∷ references "recipient_user_id" "users" set_null
      ∷ [];
  primary_key = "id" ∷ [];
  uniques = unique "uq_shares_uuid" ("uuid" ∷ []) ∷ [];
  indexes = [];
}

abbrev pub org_collections : SqlTable
org_collections = record {
  name = "org_collections";
  columns =
      id
      ∷ required "org_id" uuid_type
      ∷ required "uuid" (string 64)
      ∷ required "encrypted_name" (varchar none)
      ∷ required "revision" integer
      ∷ required "is_deleted" boolean
      ∷ now_by_default "created_at"
      ∷ now_by_default "updated_at"
      ∷ [];
  foreign_keys = references "org_id" "orgs" cascade ∷ [];
  primary_key = "id" ∷ [];
  uniques = unique "uq_org_collections_org_uuid" ("org_id" ∷ "uuid" ∷ []) ∷ [];
  indexes = [];
}

abbrev pub org_members : SqlTable
org_members = record {
  name = "org_members";
  columns =
      id
      ∷ required "org_id" uuid_type
      ∷ optional "user_id" uuid_type
      ∷ required "role" (string 32)
      ∷ required "wrapped_org_key" (varchar none)
      ∷ required "status" (string 32)
      ∷ optional "invited_email" (string 320)
      ∷ required "revision" integer
      ∷ now_by_default "created_at"
      ∷ now_by_default "updated_at"
      ∷ [];
  foreign_keys = references "org_id" "orgs" cascade ∷ references "user_id" "users" set_null ∷ [];
  primary_key = "id" ∷ [];
  uniques = unique "uq_org_members_org_user" ("org_id" ∷ "user_id" ∷ []) ∷ [];
  indexes = [];
}

abbrev pub upgrade_initial : List Op
upgrade_initial =
    create_table users
    ∷ create_index "users" (record (index_on "ix_users_email" ("email" ∷ [])) { is_unique = true })
    ∷ create_table collections
    ∷ create_index "collections" (index_on "ix_collections_user_id" ("user_id" ∷ []))
    ∷ create_table entries
    ∷ create_index "entries" (index_on "ix_entries_user_id" ("user_id" ∷ []))
    ∷ create_table attachments
    ∷ create_index "attachments" (index_on "ix_attachments_entry_uuid" ("entry_uuid" ∷ []))
    ∷ create_index "attachments" (index_on "ix_attachments_user_id" ("user_id" ∷ []))
    ∷ create_table orgs
    ∷ create_index "orgs" (index_on "ix_orgs_owner_user_id" ("owner_user_id" ∷ []))
    ∷ create_index "orgs" (index_on "ix_orgs_uuid" ("uuid" ∷ []))
    ∷ create_table shares
    ∷ create_index "shares" (index_on "ix_shares_owner_user_id" ("owner_user_id" ∷ []))
    ∷ create_index "shares" (index_on "ix_shares_recipient_email" ("recipient_email" ∷ []))
    ∷ create_index "shares" (index_on "ix_shares_recipient_user_id" ("recipient_user_id" ∷ []))
    ∷ create_index "shares" (index_on "ix_shares_uuid" ("uuid" ∷ []))
    ∷ create_table org_collections
    ∷ create_index "org_collections" (index_on "ix_org_collections_org_id" ("org_id" ∷ []))
    ∷ create_table org_members
    ∷ create_index "org_members" (index_on "ix_org_members_invited_email" ("invited_email" ∷ []))
    ∷ create_index "org_members" (index_on "ix_org_members_org_id" ("org_id" ∷ []))
    ∷ create_index "org_members" (index_on "ix_org_members_user_id" ("user_id" ∷ []))
    ∷ []

abbrev pub downgrade_initial : List Op
downgrade_initial =
    drop_index "ix_org_members_user_id"
    ∷ drop_index "ix_org_members_org_id"
    ∷ drop_index "ix_org_members_invited_email"
    ∷ drop_table "org_members"
    ∷ drop_index "ix_org_collections_org_id"
    ∷ drop_table "org_collections"
    ∷ drop_index "ix_shares_uuid"
    ∷ drop_index "ix_shares_recipient_user_id"
    ∷ drop_index "ix_shares_recipient_email"
    ∷ drop_index "ix_shares_owner_user_id"
    ∷ drop_table "shares"
    ∷ drop_index "ix_orgs_uuid"
    ∷ drop_index "ix_orgs_owner_user_id"
    ∷ drop_table "orgs"
    ∷ drop_index "ix_attachments_user_id"
    ∷ drop_index "ix_attachments_entry_uuid"
    ∷ drop_table "attachments"
    ∷ drop_index "ix_entries_user_id"
    ∷ drop_table "entries"
    ∷ drop_index "ix_collections_user_id"
    ∷ drop_table "collections"
    ∷ drop_index "ix_users_email"
    ∷ drop_table "users"
    ∷ []
