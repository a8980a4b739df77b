-- ===== src/Migrations/Scripts.antt =====
-- The scripts of Migrations.Catalog: a statement after the other, and the tables they leave.
use open_key_server.Base.{
  String, ◌≡◌, refl, sym, ap, ◌∙◌, Bool, true, false, ◌&&◌, ◌||◌, Option, none, some, List, [], ◌∷◌,
  ◌++◌, any, arith,
}
use open_key_server.Migrations.Catalog.{
  SqlTable, Op, create_table, create_index, alter_column, drop_index, drop_table,
  add_column_if_not_exists, set_type, set_default, is_named, has_table, add_index, with_type,
  in_column, run_op, run,
}
use open_key_server.Migrations.Types.{in_column-keeps, some-is}
use open_key_server.Migrations.Keeps.{any-update_table, update_table-IsUpdated}
use open_key_server.Migrations.Closed.{add_index-same, and_parts, is_undoable, created, indexed}

unfoldable pub all_undoable : List Op → Bool
all_undoable [] = true
all_undoable (op ∷ ops) = is_undoable op && all_undoable ops

-- The first statement of a script that did not fail, and the rest.
pub ran :
    (op : Op) (ops : List Op) (tables tables' : List SqlTable)
    → run (op ∷ ops) tables ≡ some tables'
    → (x : List SqlTable) × (run_op op tables ≡ some x) × (run ops x ≡ some tables')
unfolding run
ran op ops tables tables' h = go (run_op op tables) refl h
  where
    go :
        (first : Option (List SqlTable))
        → run_op op tables ≡ first
        → (elim first [ none ↦ none | some x ↦ run ops x ]) ≡ some tables'
        → (x : List SqlTable) × (run_op op tables ≡ some x) × (run ops x ≡ some tables')
    go none e h = cc
    go (some x) e h = (x, e, h)

pub run-cons :
    (op : Op) (ops : List Op) (tables x : List SqlTable)
    → run_op op tables ≡ some x
    → run (op ∷ ops) tables ≡ run ops x
unfolding run
run-cons op ops tables x h = rw (run, h)

pub run-append :
    (ops more : List Op) (tables x : List SqlTable)
    → run ops tables ≡ some x
    → run (ops ++ more) tables ≡ run more x
unfolding run
run-append [] more tables x h = ap (run more) (some-is tables x h)
run-append (op ∷ ops) more tables x h =
    let (y, first, rest) = ran op ops tables x h in
    run-cons op (ops ++ more) tables y first ∙ run-append ops more y x rest

unfoldable pub creates : String → Op → Bool
creates name (create_table t) = is_named name t
creates name op = false

swapped : (a b c : Bool) → (a || (b || c)) ≡ ((b || a) || c)
swapped a b c = ground arith

module _ (name : String) where
  has_table-run_op :
      (op : Op) (tables tables' : List SqlTable)
      → is_undoable op ≡ true
      → run_op op tables ≡ some tables'
      → has_table name tables' ≡ (creates name op || has_table name tables)
  unfolding creates has_table run_op is_undoable any
  has_table-run_op (create_table t) tables tables' u h =
      ap (has_table name) (sym (created t tables tables' h).2)
  has_table-run_op (create_index table i) tables tables' u h =
      any-update_table table (add_index i) (is_named name)
        (add_index-same (is_named name) (λ s indexes. refl) i) tables tables'
        (update_table-IsUpdated table (add_index i) tables tables'
          (indexed table i tables tables' h).1)
  has_table-run_op (alter_column table column existing type') tables tables' u h =
      any-update_table table (in_column column (with_type type')) (is_named name)
        (in_column-keeps (is_named name) (λ s columns. refl) column (with_type type')) tables
        tables' (update_table-IsUpdated table (in_column column (with_type type')) tables tables' h)
  has_table-run_op (drop_index _) tables tables' u h = cc
  has_table-run_op (drop_table _) tables tables' u h = cc
  has_table-run_op (add_column_if_not_exists _ c) tables tables' u h = cc
  has_table-run_op (set_type _ column type') tables tables' u h = cc
  has_table-run_op (set_default _ column default) tables tables' u h = cc

  -- A script that drops nothing leaves the tables that were there and those that it creates.
  pub has_table-run :
      (ops : List Op) (tables tables' : List SqlTable)
      → all_undoable ops ≡ true
      → run ops tables ≡ some tables'
      → has_table name tables' ≡ (any (creates name) ops || has_table name tables)
  unfolding all_undoable any run
  has_table-run [] tables tables' u h = ap (has_table name) (sym (some-is tables tables' h))
  has_table-run (op ∷ ops) tables tables' u h =
      let (x, first, rest) = ran op ops tables tables' h in
      let each = and_parts (is_undoable op) (all_undoable ops) u in
      has_table-run ops x tables' each.1 rest
      ∙ ap (λ b. any (creates name) ops || b) (has_table-run_op op tables x each.0 first)
      ∙ swapped (any (creates name) ops) (creates name op) (has_table name tables)
