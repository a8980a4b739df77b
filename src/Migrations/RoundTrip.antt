-- ===== src/Migrations/RoundTrip.antt =====
-- alembic/versions: `downgrade` undoes `upgrade`.
use open_key_server.Base.{
  String, ◌≡◌, refl, sym, ◌∙◌, subst, Bool, true, false, some, List, [], ◌∷◌, ◌++◌, any,
}
use open_key_server.Migrations.Catalog.{
  SqlTable, Op, create_table, create_index, alter_column, drop_index, drop_table,
  add_column_if_not_exists, set_type, set_default, has_table, refers_to, with_type, in_column,
  without_table, remove_table, run_op, run,
}
use open_key_server.Migrations.Types.{column_type, update_table-update_table}
use open_key_server.Migrations.Keeps.{update_table-IsUpdated}
use open_key_server.Migrations.Indexes.{is_same, remove-add_index}
use open_key_server.Migrations.Closed.{
  IsClosed, and_parts, is_undoable, created, indexed, run_op-IsClosed,
}
use open_key_server.Migrations.Scripts.{all_undoable, ran, run-cons, run-append}
use open_key_server.Migrations.Versions.{
  Revision, initial_schema, refresh_tokens_added, org_entries_added, sync_updated_at_indexes,
  collection_icon_color, upgrade, downgrade,
}

unfoldable undo : Op → Op
undo (create_table t) = drop_table t.name
undo (create_index name i) = drop_index i.name
undo (alter_column name column existing type') = alter_column name column type' existing
undo op = op

unfoldable undo_all : List Op → List Op
undo_all [] = []
undo_all (op ∷ ops) = undo_all ops ++ undo op ∷ []

-- A column that is altered has the type that the script says it has.
unfoldable pub HasExisting : Op → List SqlTable → Type 0
HasExisting (alter_column name column existing type') tables =
    column_type name column tables ≡ some existing
HasExisting _ tables = Unit

unfoldable pub Fits : List Op → List SqlTable → Type 0
Fits [] tables = Unit
Fits (op ∷ ops) tables =
    HasExisting op tables
    × ((tables' : List SqlTable) → run_op op tables ≡ some tables' → Fits ops tables')

unreferenced :
    (name : String) (tables : List SqlTable)
    → IsClosed tables
    → has_table name tables ≡ false
    → any (refers_to name) tables ≡ false
unfolding IsClosed
unreferenced name tables closed h = go (any (refers_to name) tables) (closed name)
  where
    go : (b : Bool) → (b ≡ true → has_table name tables ≡ true) → b ≡ false
    go false f = refl
    go true f = sym (f refl) ∙ h

remove-create_table :
    (t : SqlTable) (tables : List SqlTable)
    → any (refers_to t.name) tables ≡ false
    → remove_table t.name (t ∷ tables) ≡ some tables
unfolding remove_table without_table
remove-create_table t tables h = rw (remove_table, without_table, is_same t.name, h)

run_op-undo :
    (op : Op) (tables tables' : List SqlTable)
    → is_undoable op ≡ true
    → IsClosed tables
    → HasExisting op tables
    → run_op op tables ≡ some tables'
    → run_op (undo op) tables' ≡ some tables
unfolding undo run_op HasExisting is_undoable
run_op-undo (create_table t) tables tables' u closed e h =
    let found = created t tables tables' h in
    subst (λ x. remove_table t.name x ≡ some tables) found.2
      (remove-create_table t tables (unreferenced t.name tables closed found.0))
run_op-undo (create_index name i) tables tables' u closed e h =
    let found = indexed name i tables tables' h in
    remove-add_index name i tables tables' found.0
      (update_table-IsUpdated name _ tables tables' found.1)
run_op-undo (alter_column name column existing type') tables tables' u closed e h =
    update_table-update_table name column existing type' tables tables'
      (update_table-IsUpdated name (in_column column (with_type type')) tables tables' h) e
run_op-undo (drop_index name) tables tables' u closed e h = cc
run_op-undo (drop_table name) tables tables' u closed e h = cc
run_op-undo (add_column_if_not_exists name c) tables tables' u closed e h = cc
run_op-undo (set_type name column type') tables tables' u closed e h = cc
run_op-undo (set_default name column default) tables tables' u closed e h = cc

run-undo_all :
    (ops : List Op) (tables tables' : List SqlTable)
    → all_undoable ops ≡ true
    → IsClosed tables
    → Fits ops tables
    → run ops tables ≡ some tables'
    → run (undo_all ops) tables' ≡ some tables
unfolding undo_all all_undoable Fits run
run-undo_all [] tables tables' u closed fits h = sym h
run-undo_all (op ∷ ops) tables tables' u closed fits h =
    let (x, first, rest) = ran op ops tables tables' h in
    let each = and_parts (is_undoable op) (all_undoable ops) u in
    let back =
      run-undo_all ops x tables' each.1 (run_op-IsClosed op tables x each.0 closed first)
        (fits.1 x first) rest in
    run-append (undo_all ops) (undo op ∷ []) tables' x back
    ∙ run-cons (undo op) [] x tables (run_op-undo op tables x each.0 closed fits.0 first)

-- If every foreign key refers to a table that is there, each altered column has the type that the
-- script says it had, and the upgrade of a revision did not fail, then its downgrade does not
-- fail either and gives back exactly the tables from before.
pub run-downgrade :
    (r : Revision) (tables tables' : List SqlTable)
    → IsClosed tables
    → Fits (upgrade r) tables
    → run (upgrade r) tables ≡ some tables'
    → run (downgrade r) tables' ≡ some tables
unfolding upgrade downgrade undo_all undo all_undoable is_undoable
run-downgrade initial_schema tables tables' closed fits h =
    run-undo_all (upgrade initial_schema) tables tables' refl closed fits h
run-downgrade refresh_tokens_added tables tables' closed fits h =
    run-undo_all (upgrade refresh_tokens_added) tables tables' refl closed fits h
run-downgrade org_entries_added tables tables' closed fits h =
    run-undo_all (upgrade org_entries_added) tables tables' refl closed fits h
run-downgrade sync_updated_at_indexes tables tables' closed fits h =
    run-undo_all (upgrade sync_updated_at_indexes) tables tables' refl closed fits h
run-downgrade collection_icon_color tables tables' closed fits h =
    run-undo_all (upgrade collection_icon_color) tables tables' refl closed fits h
