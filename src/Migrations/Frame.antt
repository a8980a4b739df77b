-- ===== src/Migrations/Frame.antt =====
-- The scripts of Migrations.Catalog beside other tables.
use open_key_server.Base.{
  String, ◌≡◌, refl, sym, ap, ◌∙◌, inl, inr, Bool, true, false, not, ◌&&◌, Option, some, List, [],
  ◌∷◌, ◌++◌, any, string_eq, arith,
}
use open_key_server.Migrations.Catalog.{
  ForeignKey, Index, SqlTable, Op, create_table, create_index, alter_column, drop_index, drop_table,
  add_column_if_not_exists, set_type, set_default, is_named, has_table, has_index, has_targets,
  update_table, add_index, with_type, in_column, run_op, run,
}
use open_key_server.Migrations.Keeps.{IsUpdated, update_table-IsUpdated}
use open_key_server.Migrations.Types.{some-is, update_table-here, update_table-there}
use open_key_server.Migrations.Closed.{is_undoable, created, indexed, and_parts}
use open_key_server.Migrations.Scripts.{all_undoable, ran, run-cons}

any-append :
    {A : Type 0} (p : A → Bool) (xs ys : List A)
    → any p xs ≡ false
    → any p ys ≡ false
    → any p (xs ++ ys) ≡ false
unfolding any
any-append p [] ys h g = g
any-append p (x ∷ xs) ys h g = ground (arith, any-append p xs ys)

any-append_true :
    {A : Type 0} (p : A → Bool) (xs ys : List A) → any p xs ≡ true → any p (xs ++ ys) ≡ true
unfolding any
any-append_true p [] ys h = cc
any-append_true p (x ∷ xs) ys h = ground (arith, any-append_true p xs ys)

is_not : (b : Bool) → not b ≡ true → b ≡ false
is_not b h = ground arith

module _ (others : List SqlTable) where
  -- The name that a statement takes is free.
  unfoldable pub is_clear : Op → Bool
  is_clear (create_table t) = not (has_table t.name others)
  is_clear (create_index name i) = not (any (has_index i.name) others)
  is_clear op = true

  unfoldable pub all_clear : List Op → Bool
  all_clear [] = true
  all_clear (op ∷ ops) = is_clear op && all_clear ops

  has_targets-append :
      (keys : List ForeignKey) (tables : List SqlTable)
      → has_targets keys tables ≡ true
      → has_targets keys (tables ++ others) ≡ true
  unfolding has_targets has_table
  has_targets-append [] tables h = refl
  has_targets-append (k ∷ keys) tables h =
      let both = and_parts (has_table k.target tables) (has_targets keys tables) h in
      rw (
        any-append_true (is_named k.target) tables others both.0,
        has_targets-append keys tables both.1,
      )

  update_table-append :
      (name : String) (f : SqlTable → Option SqlTable) (tables tables' : List SqlTable)
      → IsUpdated name f tables tables'
      → update_table name f (tables ++ others) ≡ some (tables' ++ others)
  update_table-append name f [] tables' u = cc
  update_table-append name f (t ∷ tables) [] u = cc
  update_table-append name f (t ∷ tables) (t' ∷ tables') (inl (b, e, same)) =
      update_table-here name f t t' (tables ++ others) b e
      ∙ ap (λ x. some (t' ∷ x ++ others)) (sym same)
  update_table-append name f (t ∷ tables) (t' ∷ tables') (inr (b, same, u)) =
      update_table-there name f t (tables ++ others) (tables' ++ others) b
        (update_table-append name f tables tables' u)
      ∙ ap (λ x. some (x ∷ tables' ++ others)) (sym same)

  run_op-create_table :
      (t : SqlTable) (tables : List SqlTable)
      → has_table t.name tables ≡ false
      → has_targets t.foreign_keys (t ∷ tables) ≡ true
      → run_op (create_table t) tables ≡ some (t ∷ tables)
  unfolding run_op
  run_op-create_table t tables h g = rw (run_op, h, g)

  run_op-create_index :
      (name : String) (i : Index) (tables tables' : List SqlTable)
      → any (has_index i.name) tables ≡ false
      → update_table name (add_index i) tables ≡ some tables'
      → run_op (create_index name i) tables ≡ some tables'
  unfolding run_op
  run_op-create_index name i tables tables' h g = rw (run_op, h, g)

  run_op-append :
      (op : Op) (tables tables' : List SqlTable)
      → is_undoable op ≡ true
      → is_clear op ≡ true
      → run_op op tables ≡ some tables'
      → run_op op (tables ++ others) ≡ some (tables' ++ others)
  unfolding is_clear is_undoable run_op has_table
  run_op-append (create_table t) tables tables' u c h =
      let found = created t tables tables' h in
      run_op-create_table t (tables ++ others)
        (any-append (is_named t.name) tables others found.0 (is_not (has_table t.name others) c))
        (has_targets-append t.foreign_keys (t ∷ tables) found.1)
      ∙ ap (λ x. some (x ++ others)) found.2
  run_op-append (create_index name i) tables tables' u c h =
      let found = indexed name i tables tables' h in
      run_op-create_index name i (tables ++ others) (tables' ++ others)
        (any-append (has_index i.name) tables others found.0
          (is_not (any (has_index i.name) others) c))
        (update_table-append name (add_index i) tables tables'
          (update_table-IsUpdated name (add_index i) tables tables' found.1))
  run_op-append (alter_column name column existing type') tables tables' u c h =
      update_table-append name (in_column column (with_type type')) tables tables'
        (update_table-IsUpdated name (in_column column (with_type type')) tables tables' h)
  run_op-append (drop_index _) tables tables' u c h = cc
  run_op-append (drop_table _) tables tables' u c h = cc
  run_op-append (add_column_if_not_exists _ k) tables tables' u c h = cc
  run_op-append (set_type _ column type') tables tables' u c h = cc
  run_op-append (set_default _ column default) tables tables' u c h = cc

  -- A script does beside the others what it does alone.
  pub run-append_others :
      (ops : List Op) (tables tables' : List SqlTable)
      → all_undoable ops ≡ true
      → all_clear ops ≡ true
      → run ops tables ≡ some tables'
      → run ops (tables ++ others) ≡ some (tables' ++ others)
  unfolding all_undoable all_clear run
  run-append_others [] tables tables' u c h =
      ap (λ x. some (x ++ others)) (some-is tables tables' h)
  run-append_others (op ∷ ops) tables tables' u c h =
      let (x, first, rest) = ran op ops tables tables' h in
      let may = and_parts (is_undoable op) (all_undoable ops) u in
      let free = and_parts (is_clear op) (all_clear ops) c in
      run-cons op ops (tables ++ others) (x ++ others)
        (run_op-append op tables x may.0 free.0 first)
      ∙ run-append_others ops x tables' may.1 free.1 rest
