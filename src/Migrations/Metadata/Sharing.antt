-- ===== src/Migrations/Metadata/Sharing.antt =====
-- The tables that app/models/org.py and share.py declare.
use open_key_server.Base.{none, [], ◌∷◌}
use open_key_server.Migrations.Catalog.{
  uuid_type, boolean, integer, varchar, SqlTable, cascade, set_null,
}
use open_key_server.Migrations.Columns.{
  required, optional, id, now_by_default, string, references, unique, index_on,
}

abbrev pub org_table : SqlTable
org_table = record {
  name = "orgs";
  columns =
      id
      ∷ required "uuid" (string 64)
      ∷ required "encrypted_name" (varchar none)
      ∷ required "owner_user_id" uuid_type
      ∷ required "revision" integer
      ∷ now_by_default "created_at"
      ∷ now_by_default "updated_at"
      ∷ [];
  foreign_keys = references "owner_user_id" "users" cascade ∷ [];
  primary_key = "id" ∷ [];
  uniques = unique "uq_orgs_uuid" ("uuid" ∷ []) ∷ [];
  indexes =
      index_on "ix_orgs_uuid" ("uuid" ∷ [])
      ∷ index_on "ix_orgs_owner_user_id" ("owner_user_id" ∷ [])
      ∷ [];
}

abbrev pub org_member_table : SqlTable
org_member_table = record {
  name = "org_members";
  columns =
      id
      ∷ required "org_id" uuid_type
      ∷ optional "user_id" uuid_type
      ∷ required "role" (string 32)
      ∷ required "wrapped_org_key" (varchar none)
      ∷ required "status" (string 32)
      ∷ optional "invited_email" (string 320)
      ∷ required "revision" integer
      ∷ now_by_default "created_at"
      ∷ now_by_default "updated_at"
      ∷ [];
  foreign_keys = references "org_id" "orgs" cascade ∷ references "user_id" "users" set_null ∷ [];
  primary_key = "id" ∷ [];
  uniques = unique "uq_org_members_org_user" ("org_id" ∷ "user_id" ∷ []) ∷ [];
  indexes =
      index_on "ix_org_members_org_id" ("org_id" ∷ [])
      ∷ index_on "ix_org_members_user_id" ("user_id" ∷ [])
      ∷ index_on "ix_org_members_invited_email" ("invited_email" ∷ [])
      ∷ [];
}

abbrev pub org_collection_table : SqlTable
org_collection_table = record {
  name = "org_collections";
  columns =
      id
      ∷ required "org_id" uuid_type
      ∷ required "uuid" (string 64)
      ∷ required "encrypted_name" (varchar none)
      ∷ required "revision" integer
      ∷ required "is_deleted" boolean
      ∷ now_by_default "created_at"
      ∷ now_by_default "updated_at"
      ∷ [];
  foreign_keys = references "org_id" "orgs" cascade ∷ [];
  primary_key = "id" ∷ [];
  uniques = unique "uq_org_collections_org_uuid" ("org_id" ∷ "uuid" ∷ []) ∷ [];
  indexes = index_on "ix_org_collections_org_id" ("org_id" ∷ []) ∷ [];
}

abbrev pub org_entry_table : SqlTable
org_entry_table = record {
  name = "org_entries";
  columns =
      id
      ∷ required "org_id" uuid_type
      ∷ required "uuid" (string 64)
      ∷ optional "collection_uuid" (string 64)
      ∷ required "encrypted_payload" (varchar none)
      ∷ required "revision" integer
      ∷ required "is_deleted" boolean
      ∷ now_by_default "created_at"
      ∷ now_by_default "updated_at"
      ∷ [];
  foreign_keys = references "org_id" "orgs" cascade ∷ [];
  primary_key = "id" ∷ [];
  uniques = unique "uq_org_entries_org_uuid" ("org_id" ∷ "uuid" ∷ []) ∷ [];
  indexes = index_on "ix_org_entries_org_id" ("org_id" ∷ []) ∷ [];
}

abbrev pub share_table : SqlTable
share_table = record {
  name = "shares";
  columns =
      id
      ∷ required "uuid" (string 64)
      ∷ required "owner_user_id" uuid_type
      ∷ optional "recipient_user_id" uuid_type
      ∷ optional "recipient_email" (string 320)
      ∷ optional "entry_uuid" (string 64)
      ∷ optional "collection_uuid" (string 64)
      ∷ required "wrapped_item_key" (varchar none)
      ∷ optional "encrypted_payload" (varchar none)
      ∷ required "status" (string 32)
      ∷ required "revision" integer
      ∷ now_by_default "created_at"
      ∷ now_by_default "updated_at"
      ∷ [];
  foreign_keys =
      references "owner_user_id" "users" cascade
      ∷ references "recipient_user_id" "users" set_null
      ∷ [];
  primary_key = "id" ∷ [];
  uniques = unique "uq_shares_uuid" ("uuid" ∷ []) ∷ [];
  indexes =
      index_on "ix_shares_uuid" ("uuid" ∷ [])
      ∷ index_on "ix_shares_owner_user_id" ("owner_user_id" ∷ [])
      ∷ index_on "ix_shares_recipient_user_id" ("recipient_user_id" ∷ [])
      ∷ index_on "ix_shares_recipient_email" ("recipient_email" ∷ [])
      ∷ [];
}
