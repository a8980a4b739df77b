-- ===== src/Migrations/MissingTypes.antt =====
-- `create_all` of app/db/migrate.py: the type of a column that is there stays.
use open_key_server.Base.{
  String, ◌≡◌, refl, sym, ◌∙◌, subst, Bool, true, false, ◌||◌, Option, none, some, List, [], ◌∷◌,
  map, any, string_eq, if◌then◌else◌,
}
use open_key_server.Migrations.Catalog.{
  SqlType, Index, SqlTable, create_table, create_index, is_named, has_table, add_index, run_op, run,
}
use open_key_server.Migrations.Keeps.{update_table-IsUpdated}
use open_key_server.Migrations.Types.{some-is, type_in, column_type, column_type-there}
use open_key_server.Migrations.Closed.{created, indexed, add_index-same}
use open_key_server.Migrations.Scripts.{ran}
use open_key_server.Migrations.Kept.{update_table-keeps}
use open_key_server.Migrations.Startup.{create_missing_table, create_all_of, create_all, ◌then◌}

module _ (table name : String) where
  column_type-has_table :
      (type' : SqlType) (tables : List SqlTable)
      → column_type table name tables ≡ some type'
      → has_table table tables ≡ true
  unfolding has_table any column_type
  column_type-has_table type' [] h = cc
  column_type-has_table type' (t ∷ tables) h =
      go (is_named table t) h (column_type-has_table type' tables)
    where
      go :
          (b : Bool)
          → (if b then type_in name t.columns else column_type table name tables) ≡ some type'
          → (column_type table name tables ≡ some type' → any (is_named table) tables ≡ true)
          → b || any (is_named table) tables ≡ true
      go true h ih = refl
      go false h ih = ih h

  abbrev pub HasType : SqlType → List SqlTable → Type 0
  HasType type' tables = column_type table name tables ≡ some type'

  create_table-HasType :
      (type' : SqlType) (t : SqlTable) (tables tables' : List SqlTable)
      → HasType type' tables
      → run_op (create_table t) tables ≡ some tables'
      → HasType type' tables'
  create_table-HasType type' t tables tables' h r =
      let found = created t tables tables' r in
      subst (λ x. column_type table name x ≡ some type') found.2
        (column_type-there table name t tables (
            other_name (is_named table t)
              (λ same.
                subst (λ x. has_table x tables ≡ false) ((string_eq.equal_iff t.name table).0 same)
                  found.0)
              (column_type-has_table type' tables h))
          ∙ h)
    where
      other_name :
          (b : Bool)
          → (b ≡ true → has_table table tables ≡ false)
          → has_table table tables ≡ true
          → b ≡ false
      other_name false f g = refl
      other_name true f g = sym g ∙ f refl

  create_indexes-HasType :
      (type' : SqlType) (other : String) (indexes : List Index) (tables tables' : List SqlTable)
      → HasType type' tables
      → run (map (create_index other) indexes) tables ≡ some tables'
      → HasType type' tables'
  unfolding run
  create_indexes-HasType type' other [] tables tables' h r =
      subst (HasType type') (some-is tables tables' r) h
  create_indexes-HasType type' other (i ∷ indexes) tables tables' h r =
      let (x, first, rest) =
        ran (create_index other i) (map (create_index other) indexes) tables tables' r in
      let kept =
        update_table-keeps table name other (add_index i)
          (add_index-same (is_named table) (λ s l. refl) i)
          (add_index-same (λ s. type_in name s.columns) (λ s l. refl) i) tables x
          (update_table-IsUpdated other (add_index i) tables x
            (indexed other i tables x first).1) in
      create_indexes-HasType type' other indexes x tables' (kept ∙ h) rest

  missing-HasType :
      (type' : SqlType) (t : SqlTable) (tables tables' : List SqlTable) (b : Bool)
      → HasType type' tables
      → (if b then some tables else run (create_all_of t) tables) ≡ some tables'
      → HasType type' tables'
  missing-HasType type' t tables tables' true h r =
      subst (HasType type') (some-is tables tables' r) h
  missing-HasType type' t tables tables' false h r =
      let (x, first, rest) =
        ran (create_table (record t { indexes = [] })) (map (create_index t.name) t.indexes) tables
          tables' r in
      create_indexes-HasType type' t.name t.indexes x tables'
        (create_table-HasType type' (record t { indexes = [] }) tables x h first) rest

  pub create_all-HasType :
      (type' : SqlType) (declared tables tables' : List SqlTable)
      → HasType type' tables
      → create_all declared tables ≡ some tables'
      → HasType type' tables'
  unfolding create_all
  create_all-HasType type' [] tables tables' h r =
      subst (HasType type') (some-is tables tables' r) h
  create_all-HasType type' (t ∷ declared) tables tables' h r =
      go (create_missing_table t tables)
        (λ x. missing-HasType type' t tables x (has_table t.name tables) h)
        (create_all-HasType type' declared) r
    where
      go :
          (made : Option (List SqlTable))
          → ((x : List SqlTable) → made ≡ some x → HasType type' x)
          → ((x y : List SqlTable)
              → HasType type' x
              → create_all declared x ≡ some y
              → HasType type' y)
          → (elim made [ none ↦ none | some x ↦ create_all declared x ]) ≡ some tables'
          → HasType type' tables'
      go none holds ih r = cc
      go (some x) holds ih r = ih x tables' (holds x refl) r
