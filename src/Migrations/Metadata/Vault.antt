-- ===== src/Migrations/Metadata/Vault.antt =====
-- The tables that app/models/user.py, refresh_token.py, collection.py, entry.py and attachment.py declare.
use open_key_server.Base.{true, none, [], ◌∷◌}
use open_key_server.Migrations.Catalog.{
  uuid_type, boolean, integer, big_integer, jsonb, large_binary, timestamp_tz, varchar, SqlTable,
  cascade,
}
use open_key_server.Migrations.Columns.{
  required, optional, id, now_by_default, string, references, unique, index_on,
}

abbrev pub user_table : SqlTable
user_table = record {
  name = "users";
  columns =
      id
      ∷ required "email" (string 320)
      ∷ required "auth_hash" (string 512)
      ∷ required "encrypted_vault_key" (varchar none)
      ∷ required "kdf_params" jsonb
      ∷ required "salt" (string 512)
      ∷ optional "public_key" (varchar none)
      ∷ optional "encrypted_private_key" (varchar none)
      ∷ now_by_default "created_at"
      ∷ now_by_default "updated_at"
      ∷ [];
  foreign_keys = [];
  primary_key = "id" ∷ [];
  uniques = [];
  indexes = record (index_on "ix_users_email" ("email" ∷ [])) { is_unique = true } ∷ [];
}

abbrev pub collection_table : SqlTable
collection_table = record {
  name = "collections";
  columns =
      id
      ∷ required "user_id" uuid_type
      ∷ required "uuid" (string 64)
      ∷ required "encrypted_name" (varchar none)
      ∷ required "icon" (varchar none)
      ∷ optional "color" big_integer
      ∷ optional "parent_uuid" (string 64)
      ∷ required "sort_order" integer
      ∷ required "revision" integer
      ∷ required "is_deleted" boolean
      ∷ now_by_default "created_at"
      ∷ now_by_default "updated_at"
      ∷ [];
  foreign_keys = references "user_id" "users" cascade ∷ [];
  primary_key = "id" ∷ [];
  uniques = unique "uq_collections_user_uuid" ("user_id" ∷ "uuid" ∷ []) ∷ [];
  indexes =
      index_on "ix_collections_user_updated_at" ("user_id" ∷ "updated_at" ∷ [])
      ∷ index_on "ix_collections_user_id" ("user_id" ∷ [])
      ∷ [];
}

abbrev pub entry_table : SqlTable
entry_table = record {
  name = "entries";
  columns =
      id
      ∷ required "user_id" uuid_type
      ∷ required "uuid" (string 64)
      ∷ optional "collection_uuid" (string 64)
      ∷ required "encrypted_payload" (varchar none)
      ∷ required "revision" integer
      ∷ required "is_deleted" boolean
      ∷ now_by_default "created_at"
      ∷ now_by_default "updated_at"
      ∷ [];
  foreign_keys = references "user_id" "users" cascade ∷ [];
  primary_key = "id" ∷ [];
  uniques = unique "uq_entries_user_uuid" ("user_id" ∷ "uuid" ∷ []) ∷ [];
  indexes =
      index_on "ix_entries_user_updated_at" ("user_id" ∷ "updated_at" ∷ [])
      ∷ index_on "ix_entries_user_id" ("user_id" ∷ [])
      ∷ [];
}

abbrev pub attachment_table : SqlTable
attachment_table = record {
  name = "attachments";
  columns =
      id
      ∷ required "user_id" uuid_type
      ∷ required "uuid" (string 64)
      ∷ required "entry_uuid" (string 64)
      ∷ required "filename" (string 512)
      ∷ required "size_bytes" big_integer
      ∷ required "encrypted_blob" large_binary
      ∷ optional "content_type" (string 255)
      ∷ required "revision" integer
      ∷ required "is_deleted" boolean
      ∷ now_by_default "created_at"
      ∷ now_by_default "updated_at"
      ∷ [];
  foreign_keys = references "user_id" "users" cascade ∷ [];
  primary_key = "id" ∷ [];
  uniques = unique "uq_attachments_user_uuid" ("user_id" ∷ "uuid" ∷ []) ∷ [];
  indexes =
      index_on "ix_attachments_user_updated_at" ("user_id" ∷ "updated_at" ∷ [])
      ∷ index_on "ix_attachments_user_id" ("user_id" ∷ [])
      ∷ index_on "ix_attachments_entry_uuid" ("entry_uuid" ∷ [])
      ∷ [];
}

abbrev pub refresh_token_table : SqlTable
refresh_token_table = record {
  name = "refresh_tokens";
  columns =
      id
      ∷ required "user_id" uuid_type
      ∷ required "token_hash" (string 64)
      ∷ required "expires_at" timestamp_tz
      ∷ optional "revoked_at" timestamp_tz
      ∷ now_by_default "created_at"
      ∷ [];
  foreign_keys = references "user_id" "users" cascade ∷ [];
  primary_key = "id" ∷ [];
  uniques = record { name = none; columns = "token_hash" ∷ [] } ∷ [];
  indexes = index_on "ix_refresh_tokens_user_id" ("user_id" ∷ []) ∷ [];
}
