-- ===== src/Tests/Databases.antt =====
-- Tests of Migrations: app/db/migrate.py and alembic/versions on small databases.
use open_key_server.Base.{
  ◌≡◌, refl, subst, true, false, Option, none, some, List, [], ◌∷◌, ◌++◌, concat, any, string_eq,
}
use open_key_server.Migrations.Catalog.{
  SqlTable, integer, run, run_op, has_table, has_targets, update_table, update_column, has_columns,
}
use open_key_server.Migrations.Columns.{string}
use open_key_server.Migrations.Types.{some-is, column_type, type_in}
use open_key_server.Migrations.Closed.{IsClosed, create_table-IsClosed}
use open_key_server.Migrations.Initial.{users, collections}
use open_key_server.Migrations.Versions.{collection_icon_color, upgrade, downgrade}
use open_key_server.Migrations.Startup.{Database, script_from, create_all, run_migrations}
use open_key_server.Migrations.Metadata.{metadata}
use open_key_server.Migrations.Agree.{agree}
use open_key_server.Migrations.Frame.{all_clear, is_clear}
use open_key_server.Migrations.Fresh.{script_from-agree}
use open_key_server.Migrations.RoundTrip.{Fits, HasExisting, run-downgrade}
use open_key_server.Migrations.Again.{run_migrations-run_migrations}
use open_key_server.Migrations.Narrowed.{run_migrations-column_type}

abbrev first_tables : List SqlTable
first_tables = collections ∷ users ∷ []

first_tables-IsClosed : IsClosed first_tables
unfolding IsClosed any has_targets has_table
first_tables-IsClosed =
    create_table-IsClosed collections (users ∷ []) refl
      (create_table-IsClosed users [] refl (λ name h. h))

first_tables-Fits : Fits (upgrade collection_icon_color) first_tables
unfolding Fits HasExisting upgrade column_type type_in run_op update_table update_column
first_tables-Fits = (
  refl,
  λ x h. (
    subst (λ y. column_type "collections" "color" y ≡ some integer) (some-is _ x h) refl,
    λ y k. tt,
  ),
)

abbrev tables_of : Option (List SqlTable) → List SqlTable
tables_of none = []
tables_of (some tables) = tables

run-downgrade_example :
    run
      (downgrade collection_icon_color)
      (tables_of (run (upgrade collection_icon_color) first_tables))
    ≡ some first_tables
unfolding run run_op upgrade update_table update_column
run-downgrade_example =
    run-downgrade collection_icon_color first_tables
      (tables_of (run (upgrade collection_icon_color) first_tables)) first_tables-IsClosed
      first_tables-Fits refl

-- A table of another program in the same schema.
abbrev other_tables : List SqlTable
other_tables = record users { name = "spatial_ref_sys" } ∷ []

script_from-agree_example :
    (tables : List SqlTable) × (run (script_from none) other_tables ≡ some (tables ++ other_tables))
    × (agree metadata tables ≡ true)
unfolding all_clear is_clear script_from concat upgrade has_table any
script_from-agree_example = script_from-agree other_tables refl

abbrev empty_database : Database
empty_database = record { tables = []; has_version = false; version = none }

-- The first start creates all the tables, and the second one changes nothing.
run_migrations-run_migrations_example :
    run_migrations (run_migrations empty_database).1 ≡ (true, (run_migrations empty_database).1)
unfolding run_migrations has_table any run script_from concat upgrade run_op has_targets
    update_table has_columns update_column
run_migrations-run_migrations_example =
    run_migrations-run_migrations empty_database (run_migrations empty_database).1 refl

-- A database from before Alembic, whose icons are wide already.
abbrev older_database : Database
older_database = record { tables = first_tables; has_version = false; version = none }

run_migrations-column_type_example :
    column_type "collections" "icon" (run_migrations older_database).1.tables ≡ some (string 255)
unfolding run_migrations has_table any run script_from concat upgrade run_op has_targets
    update_table has_columns update_column create_all
run_migrations-column_type_example =
    run_migrations-column_type older_database (run_migrations older_database).1 refl refl
