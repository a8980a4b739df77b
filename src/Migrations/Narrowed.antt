-- ===== src/Migrations/Narrowed.antt =====
-- app/db/migrate.py: what the repairs of an older database leave of `collections.icon`.
use open_key_server.Base.{
  String, ◌≡◌, refl, sym, ap, ◌∙◌, subst, Bool, true, false, not, ◌&&◌, ◌||◌, Option, none, some,
  List, [], ◌∷◌, ◌++◌, take, drop, string_eq, if◌then◌else◌,
}
use open_key_server.Migrations.Catalog.{
  Column, SqlTable, Op, set_type, set_default, is_named, with_type, in_column, update_column,
  run_op, run,
}
use open_key_server.Migrations.Columns.{string}
use open_key_server.Migrations.Keeps.{update_table-IsUpdated}
use open_key_server.Migrations.Types.{some-is, type_in, column_type, in_column-keeps}
use open_key_server.Migrations.Scripts.{ran}
use open_key_server.Migrations.Kept.{
  update_column-sets, update_column-keeps, update_table-sets, update_table-keeps,
}
use open_key_server.Migrations.MissingTypes.{create_all-HasType}
use open_key_server.Migrations.Metadata.{metadata}
use open_key_server.Migrations.Startup.{
  Database, Step, schema_repairs, apply_schema_repairs, create_missing_tables, at_head, stamp_head,
  return_now, upgrade_head, has_users, has_refresh, ◌then◌, run_migrations,
}
use open_key_server.Migrations.Repaired.{repaired, returned, not_returned}

-- What a change of a table's columns makes of a column.
of_columns :
    (P : List Column → Type 0) (other : String) (f : Column → Column) (t t' : SqlTable)
    → ((columns' : List Column) → update_column other f t.columns ≡ some columns' → P columns')
    → in_column other f t ≡ some t'
    → P t'.columns
of_columns P other f t t' holds = go (update_column other f t.columns) holds
  where
    go :
        (changed : Option (List Column))
        → ((columns' : List Column) → changed ≡ some columns' → P columns')
        → (elim changed [ none ↦ none | some columns ↦ some (record t { columns = columns }) ])
          ≡ some t'
        → P t'.columns
    go none holds h = cc
    go (some columns) holds h =
        subst (λ x. P x.columns) (some-is (record t { columns = columns }) t' h)
          (holds columns refl)

abbrev icon_default : Column → Column
icon_default c = record c { server_default = some "material:folder" }

icon_default-type_in :
    (c : Column) (columns : List Column)
    → type_in "icon" (icon_default c ∷ columns) ≡ type_in "icon" (c ∷ columns)
unfolding type_in
icon_default-type_in c columns = refl

abbrev narrowing : List Op
narrowing = drop 3 schema_repairs

narrowed :
    (ops : List Op) (tables tables' : List SqlTable)
    → run (ops ++ narrowing) tables ≡ some tables'
    → column_type "collections" "icon" tables' ≡ some (string 255)
unfolding run_op run
narrowed (op ∷ ops) tables tables' h =
    let (x, first, rest) = ran op (ops ++ narrowing) tables tables' h in narrowed ops x tables' rest
narrowed [] c tables' h =
    let (d, typed, h4) =
      ran (set_type "collections" "icon" (string 255)) (drop 4 schema_repairs) c tables' h in
    let (e, defaulted, h5) =
      ran (set_default "collections" "icon" "material:folder") [] d tables' h4 in
    let set =
      update_table-sets "collections" "icon" (in_column "icon" (with_type (string 255)))
        (string 255)
        (in_column-keeps (is_named "collections") (λ s l. refl) "icon" (with_type (string 255)))
        (λ t t'.
          of_columns (λ l. type_in "icon" l ≡ some (string 255)) "icon" (with_type (string 255)) t
            t' (update_column-sets "icon" (string 255) t.columns))
        c d
        (update_table-IsUpdated "collections" (in_column "icon" (with_type (string 255))) c d
          typed) in
    let kept =
      update_table-keeps "collections" "icon" "collections" (in_column "icon" icon_default)
        (in_column-keeps (is_named "collections") (λ s l. refl) "icon" icon_default)
        (λ t t'.
          of_columns (λ l. type_in "icon" l ≡ type_in "icon" t.columns) "icon" icon_default t t'
            (update_column-keeps "icon" "icon" icon_default icon_default-type_in t.columns))
        d e (update_table-IsUpdated "collections" (in_column "icon" icon_default) d e defaulted) in
    ap (column_type "collections" "icon") (sym (some-is e tables' h5)) ∙ kept ∙ set

-- Both ways in which the repairs are run.
abbrev pub needs_repairs : Database → Bool
needs_repairs db = has_users db && (not db.has_version || not (has_refresh db))

repaired_icon :
    (db x : Database)
    → (apply_schema_repairs then create_missing_tables) db ≡ (true, x)
    → column_type "collections" "icon" x.tables ≡ some (string 255)
repaired_icon db x h =
    let (tables, tables', first, second, same) = repaired db x h in
    subst (λ y. column_type "collections" "icon" y.tables ≡ some (string 255)) same
      (create_all-HasType "collections" "icon" (string 255) metadata tables tables'
        (narrowed (take 3 schema_repairs) db.tables tables first) second)

upgrade_then :
    (db x : Database) (k : Step)
    → (upgrade_head then k) db ≡ (true, x)
    → (y : Database) × (k y ≡ (true, x))
upgrade_then db x k h = go (upgrade_head db) h
  where
    go :
        (r : Bool × Database)
        → ((λ d. r) then k) db ≡ (true, x)
        → (y : Database) × (k y ≡ (true, x))
    go (false, y) h = not_returned y x h
    go (true, y) h = (y, h)

stamped_icon :
    (db x : Database)
    → (apply_schema_repairs then create_missing_tables then stamp_head) db ≡ (true, x)
    → column_type "collections" "icon" x.tables ≡ some (string 255)
stamped_icon db x h = go ((apply_schema_repairs then create_missing_tables) db) refl h
  where
    go :
        (r : Bool × Database)
        → (apply_schema_repairs then create_missing_tables) db ≡ r
        → ((λ d. r) then stamp_head) db ≡ (true, x)
        → column_type "collections" "icon" x.tables ≡ some (string 255)
    go (false, y) e h = not_returned y x h
    go (true, y) e h =
        subst (λ z. column_type "collections" "icon" z.tables ≡ some (string 255))
          (returned (at_head y) x h) (repaired_icon db y e)

upgraded_icon :
    (db x : Database) (repairs : Bool)
    → repairs ≡ true
    → (upgrade_head
          then (if repairs then apply_schema_repairs then create_missing_tables else return_now))
        db
      ≡ (true, x)
    → column_type "collections" "icon" x.tables ≡ some (string 255)
upgraded_icon db x true r h =
    let (y, k) = upgrade_then db x (apply_schema_repairs then create_missing_tables) h in
    repaired_icon y x k
upgraded_icon db x false r h = cc

must_repair :
    (users version refresh : Bool)
    → users && (not version || not refresh) ≡ true
    → users && not version ≡ false
    → users && version && not refresh ≡ true
must_repair true true refresh n e = n
must_repair true false refresh n e = cc
must_repair false version refresh n e = n

-- Where there is a table `users`, and either no `alembic_version` or no `refresh_tokens`,
-- migrations that return leave the type VARCHAR(255) to the column `icon` of `collections`,
-- whatever type it had, although revision 005 and the model make it wider.
pub run_migrations-column_type :
    (db db' : Database)
    → needs_repairs db ≡ true
    → run_migrations db ≡ (true, db')
    → column_type "collections" "icon" db'.tables ≡ some (string 255)
unfolding run_migrations
run_migrations-column_type db db' n h = go (has_users db && not db.has_version) refl h
  where
    go :
        (legacy : Bool)
        → has_users db && not db.has_version ≡ legacy
        → (if legacy
            then (apply_schema_repairs then create_missing_tables then stamp_head) db
            else (upgrade_head
                  then (if has_users db && db.has_version && not (has_refresh db)
                      then apply_schema_repairs
                      then create_missing_tables
                      else return_now))
                db)
          ≡ (true, db')
        → column_type "collections" "icon" db'.tables ≡ some (string 255)
    go true e h = stamped_icon db db' h
    go false e h =
        upgraded_icon db db' (has_users db && db.has_version && not (has_refresh db))
          (must_repair (has_users db) db.has_version (has_refresh db) n e) h
