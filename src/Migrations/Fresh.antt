-- ===== src/Migrations/Fresh.antt =====
-- alembic/versions: what the scripts make of a database that has none of the tables.
use open_key_server.Base.{
  ◌≡◌, refl, true, Option, none, some, List, [], ◌++◌, concat, any, string_eq,
}
use open_key_server.Migrations.Catalog.{
  SqlTable, run, run_op, has_table, has_targets, has_columns, update_table, update_column,
}
use open_key_server.Migrations.Versions.{upgrade}
use open_key_server.Migrations.Startup.{script_from}
use open_key_server.Migrations.Metadata.{metadata}
use open_key_server.Migrations.Closed.{is_undoable}
use open_key_server.Migrations.Scripts.{all_undoable}
use open_key_server.Migrations.Frame.{all_clear, run-append_others}
use open_key_server.Migrations.Agree.{agree, same_list, same_set, has_each, same_table}

abbrev tables_of : Option (List SqlTable) → List SqlTable
tables_of none = []
tables_of (some tables) = tables

fresh_agree : agree metadata (tables_of (run (script_from none) [])) ≡ true
unfolding run run_op script_from concat upgrade has_table any has_targets has_columns update_table
    update_column agree same_list same_set has_each same_table
fresh_agree = refl

-- In a schema whose other tables and indexes leave the scripts' names free, all the scripts from
-- the first on run without an error, leave those tables as they are and add the tables that the
-- models declare: with the same columns in the same order, equal in name, type and whether they
-- may be NULL, and the same primary keys, foreign keys, unique constraints and indexes. VARCHAR
-- without a length counts as TEXT, and server defaults are not compared.
pub script_from-agree :
    (others : List SqlTable)
    → all_clear others (script_from none) ≡ true
    → (tables : List SqlTable) × (run (script_from none) others ≡ some (tables ++ others))
      × (agree metadata tables ≡ true)
unfolding run run_op script_from concat upgrade has_table any has_targets has_columns update_table
    update_column all_undoable is_undoable
script_from-agree others clear =
    let alone = tables_of (run (script_from none) []) in
    (alone, run-append_others others (script_from none) [] alone refl clear refl, fresh_agree)
