-- ===== src/Migrations/Types.antt =====
-- The type of a column in Migrations.Catalog, which a change of types writes and restores.
use open_key_server.Base.{
  String, ◌≡◌, refl, sym, ap, ◌∙◌, subst, inl, inr, Bool, true, false, Option, none, some, List, [],
  ◌∷◌, ◌==◌, string_eq, if◌then◌else◌,
}
use open_key_server.Migrations.Catalog.{
  SqlType, Column, SqlTable, put, is_named, update_table, with_type, in_column, update_column,
}
use open_key_server.Migrations.Keeps.{IsUpdated}

unfoldable pub type_in : String → List Column → Option SqlType
type_in name [] = none
type_in name (c ∷ columns) =
    let rest = type_in name columns in if c.name == name then some c.sql_type else rest

unfoldable pub column_type : String → String → List SqlTable → Option SqlType
column_type name column [] = none
column_type name column (t ∷ tables) =
    let rest = column_type name column tables in
    if is_named name t then type_in column t.columns else rest

pub some-is : {A : Type 0} (x y : A) → some x ≡ some y → x ≡ y
some-is x y h = cc

update_column-here :
    (name : String) (f : Column → Column) (c : Column) (columns : List Column)
    → (c.name == name) ≡ true
    → update_column name f (c ∷ columns) ≡ some (f c ∷ columns)
unfolding update_column
update_column-here name f c columns b = rw (update_column, b)

update_column-there :
    (name : String) (f : Column → Column) (c : Column) (columns rest : List Column)
    → (c.name == name) ≡ false
    → update_column name f columns ≡ some rest
    → update_column name f (c ∷ columns) ≡ some (c ∷ rest)
unfolding update_column
update_column-there name f c columns rest b h = rw (update_column, b, h)

retyped : (old new : SqlType) (c : Column) → c.sql_type ≡ old → with_type old (with_type new c) ≡ c
retyped old new c h = ap (λ x. with_type x c) (sym h)

module _ (name : String) (old new : SqlType) where
  abbrev Restores : List Column → List Column → Type 0
  Restores columns columns' = update_column name (with_type old) columns' ≡ some columns

  restore_step :
      (c : Column) (columns columns' : List Column) (b : Bool) (rest : Option (List Column))
      → (c.name == name) ≡ b
      → ((r : List Column) → rest ≡ some r → type_in name columns ≡ some old → Restores columns r)
      → (if b then some (with_type new c ∷ columns) else put c rest) ≡ some columns'
      → (if b then some c.sql_type else type_in name columns) ≡ some old
      → Restores (c ∷ columns) columns'
  restore_step c columns columns' true rest b ih h e =
      let here = update_column-here name (with_type old) (with_type new c) columns b in
      subst (Restores (c ∷ columns)) (some-is (with_type new c ∷ columns) columns' h) (
        subst
          (λ x. update_column name (with_type old) (with_type new c ∷ columns) ≡ some (x ∷ columns))
          (retyped old new c (some-is c.sql_type old e)) here)
  restore_step c columns columns' false none b ih h e = cc
  restore_step c columns columns' false (some r) b ih h e =
      subst (Restores (c ∷ columns)) (some-is (c ∷ r) columns' h)
        (update_column-there name (with_type old) c r columns b (ih r refl e))

  update_column-update_column :
      (columns columns' : List Column)
      → update_column name (with_type new) columns ≡ some columns'
      → type_in name columns ≡ some old
      → Restores columns columns'
  unfolding update_column type_in
  update_column-update_column [] columns' h e = cc
  update_column-update_column (c ∷ columns) columns' h e =
      restore_step c columns columns' (c.name == name) (update_column name (with_type new) columns)
        refl (update_column-update_column columns) h e

module _ (name : String) (old new : SqlType) where
  in_column-in_column :
      (t t' : SqlTable) (changed : Option (List Column))
      → update_column name (with_type new) t.columns ≡ changed
      → (elim changed [ none ↦ none | some columns ↦ some (record t { columns = columns }) ])
        ≡ some t'
      → type_in name t.columns ≡ some old
      → in_column name (with_type old) t' ≡ some t
  in_column-in_column t t' none r h e = cc
  in_column-in_column t t' (some columns) r h e =
      subst (λ x. in_column name (with_type old) x ≡ some t)
        (some-is (record t { columns = columns }) t' h)
        (rw (in_column, update_column-update_column name old new t.columns columns r e))

pub update_table-here :
    (name : String) (f : SqlTable → Option SqlTable) (t t' : SqlTable) (tables : List SqlTable)
    → is_named name t ≡ true
    → f t ≡ some t'
    → update_table name f (t ∷ tables) ≡ some (t' ∷ tables)
unfolding update_table
update_table-here name f t t' tables b h = rw (update_table, b, h)

pub update_table-there :
    (name : String) (f : SqlTable → Option SqlTable) (t : SqlTable) (tables rest : List SqlTable)
    → is_named name t ≡ false
    → update_table name f tables ≡ some rest
    → update_table name f (t ∷ tables) ≡ some (t ∷ rest)
unfolding update_table
update_table-there name f t tables rest b h = rw (update_table, b, h)

pub in_column-keeps :
    {A : Type 0} (p : SqlTable → A)
    (keeps : (t : SqlTable) (columns : List Column) → p (record t { columns = columns }) ≡ p t)
    (name : String) (f : Column → Column) (t t' : SqlTable)
    → in_column name f t ≡ some t'
    → p t' ≡ p t
in_column-keeps p keeps name f t t' = go (update_column name f t.columns)
  where
    go :
        (changed : Option (List Column))
        → (elim changed [ none ↦ none | some columns ↦ some (record t { columns = columns }) ])
          ≡ some t'
        → p t' ≡ p t
    go none h = cc
    go (some columns) h =
        subst (λ x. p x ≡ p t) (some-is (record t { columns = columns }) t' h) (keeps t columns)

module _ (table name : String) where
  pub column_type-here :
      (t : SqlTable) (tables : List SqlTable)
      → is_named table t ≡ true
      → column_type table name (t ∷ tables) ≡ type_in name t.columns
  unfolding column_type
  column_type-here t tables b = rw (column_type, b)

  pub column_type-there :
      (t : SqlTable) (tables : List SqlTable)
      → is_named table t ≡ false
      → column_type table name (t ∷ tables) ≡ column_type table name tables
  unfolding column_type
  column_type-there t tables b = rw (column_type, b)

module _ (table name : String) (old new : SqlType) where
  pub update_table-update_table :
      (tables tables' : List SqlTable)
      → IsUpdated table (in_column name (with_type new)) tables tables'
      → column_type table name tables ≡ some old
      → update_table table (in_column name (with_type old)) tables' ≡ some tables
  update_table-update_table [] tables' u h = cc
  update_table-update_table (t ∷ tables) [] u h = cc
  update_table-update_table (t ∷ tables) (t' ∷ tables') (inl (b, e, same)) h =
      let back =
        in_column-in_column name old new t t' (update_column name (with_type new) t.columns) refl e
          (sym (column_type-here table name t tables b) ∙ h) in
      let named =
        in_column-keeps (is_named table) (λ s columns. refl) name (with_type new) t t' e ∙ b in
      subst (λ x. update_table table (in_column name (with_type old)) (t' ∷ tables') ≡ some (t ∷ x))
        same (update_table-here table (in_column name (with_type old)) t' t tables' named back)
  update_table-update_table (t ∷ tables) (t' ∷ tables') (inr (b, same, u)) h =
      subst
        (λ x. update_table table (in_column name (with_type old)) (x ∷ tables') ≡ some (t ∷ tables))
        (sym same)
        (update_table-there table (in_column name (with_type old)) t tables' tables b (
          update_table-update_table tables tables' u
            (sym (column_type-there table name t tables b) ∙ h)))
