-- ===== src/Migrations/Startup.antt =====
-- app/db/migrate.py: the migrations at the start of the server.
use open_key_server.Base.{
  ℕ, suc, Bool, true, false, ◌&&◌, not, Option, none, some, List, [], ◌∷◌, concat, map, drop,
  if◌then◌else◌,
}
use open_key_server.Migrations.Catalog.{
  SqlTable, varchar, Op, create_table, create_index, add_column_if_not_exists, set_type,
  set_default, has_table, run,
}
use open_key_server.Migrations.Columns.{optional, string}
use open_key_server.Migrations.Versions.{
  Revision, initial_schema, refresh_tokens_added, org_entries_added, sync_updated_at_indexes,
  collection_icon_color, head, upgrade,
}
use open_key_server.Migrations.Metadata.{metadata}

-- The schema's tables but for `alembic_version`, whether that one is there, and the revision it holds.
pub record Database : Type 0 where
  pub tables : List SqlTable
  pub has_version : Bool
  pub version : Option Revision

-- A step tells whether it returned; a statement that fails takes its own transaction back, and not the
-- steps before it.
abbrev pub Step : Type 0
Step = Database → Bool × Database

abbrev pub commit_or_fail : Database → Option Database → Bool × Database
commit_or_fail db none = (false, db)
commit_or_fail db (some db') = (true, db')

infixl 5 ◌then◌
abbrev pub ◌then◌ : Step → Step → Step
◌then◌ m k db = let (done, db') = m db in if done then k db' else (false, db')

abbrev pub return_now : Step
return_now db = (true, db)

abbrev pub with_tables : Database → Option (List SqlTable) → Option Database
with_tables db none = none
with_tables db (some tables) = some (record db { tables = tables })

abbrev pub schema_repairs : List Op
schema_repairs =
    add_column_if_not_exists "users" (optional "public_key" (varchar none))
    ∷ add_column_if_not_exists "users" (optional "encrypted_private_key" (varchar none))
    ∷ add_column_if_not_exists "collections" (optional "parent_uuid" (string 64))
    ∷ set_type "collections" "icon" (string 255)
    ∷ set_default "collections" "icon" "material:folder"
    ∷ []

abbrev pub apply_schema_repairs : Step
apply_schema_repairs db = commit_or_fail db (with_tables db (run schema_repairs db.tables))

-- `metadata.create_all`: a table with its indexes, unless there is one of that name.
abbrev pub create_all_of : SqlTable → List Op
create_all_of t = create_table (record t { indexes = [] }) ∷ map (create_index t.name) t.indexes

abbrev pub create_missing_table : SqlTable → List SqlTable → Option (List SqlTable)
create_missing_table t tables =
    if has_table t.name tables then some tables else run (create_all_of t) tables

unfoldable pub create_all : List SqlTable → List SqlTable → Option (List SqlTable)
create_all [] tables = some tables
create_all (t ∷ declared) tables = elim (create_missing_table t tables) [
  | none ↦ none
  | some tables' ↦ create_all declared tables'
]

abbrev pub create_missing_tables : Step
create_missing_tables db = commit_or_fail db (with_tables db (create_all metadata db.tables))

abbrev pub at_head : Database → Database
at_head db = record db { has_version = true; version = some head }

-- `command.stamp(cfg, "head")`
abbrev pub stamp_head : Step
stamp_head db = (true, at_head db)

abbrev pub history : List Revision
history =
    initial_schema ∷ refresh_tokens_added ∷ org_entries_added ∷ sync_updated_at_indexes
    ∷ collection_icon_color ∷ []

abbrev pub place : Revision → ℕ
place initial_schema = 0
place refresh_tokens_added = 1
place org_entries_added = 2
place sync_updated_at_indexes = 3
place collection_icon_color = 4

-- The revisions from the database's on to the head.
abbrev pub pending : Option Revision → List Revision
pending none = history
pending (some r) = drop (suc (place r)) history

unfoldable pub script_from : Option Revision → List Op
script_from version = concat (map upgrade (pending version))

abbrev pub upgraded : Database → Option (List SqlTable) → Option Database
upgraded db none = none
upgraded db (some tables) = some (at_head (record db { tables = tables }))

-- `command.upgrade(cfg, "head")`: alembic/env.py runs all the scripts in one transaction.
abbrev pub upgrade_head : Step
upgrade_head db = commit_or_fail db (upgraded db (run (script_from db.version) db.tables))

abbrev pub has_users : Database → Bool
has_users db = has_table "users" db.tables

abbrev pub has_refresh : Database → Bool
has_refresh db = has_table "refresh_tokens" db.tables

-- The flags are read once, before anything is changed.
unfoldable pub run_migrations : Step
run_migrations db =
    if has_users db && not db.has_version
    then (apply_schema_repairs then create_missing_tables then stamp_head) db
    else (upgrade_head
          then (if has_users db && db.has_version && not (has_refresh db)
              then apply_schema_repairs
              then create_missing_tables
              else return_now))
        db
