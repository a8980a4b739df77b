-- ===== src/Migrations/Kept.antt =====
-- The type of a column after a statement of Migrations.Catalog: set, or kept.
use open_key_server.Base.{
  String, ◌≡◌, refl, sym, ap, ◌∙◌, subst, inl, inr, Bool, true, false, Option, none, some, List, [],
  ◌∷◌, ◌==◌, string_eq, if◌then◌else◌,
}
use open_key_server.Migrations.Catalog.{
  SqlType, Column, SqlTable, put, is_named, with_type, update_column,
}
use open_key_server.Migrations.Keeps.{IsUpdated}
use open_key_server.Migrations.Types.{
  some-is, type_in, column_type, column_type-here, column_type-there,
}

module _ (name : String) where
  type_in-here :
      (c : Column) (columns : List Column)
      → (c.name == name) ≡ true
      → type_in name (c ∷ columns) ≡ some c.sql_type
  unfolding type_in
  type_in-here c columns b = rw (type_in, b)

  type_in-there :
      (c : Column) (columns : List Column)
      → (c.name == name) ≡ false
      → type_in name (c ∷ columns) ≡ type_in name columns
  unfolding type_in
  type_in-there c columns b = rw (type_in, b)

  set_step :
      (type' : SqlType) (c : Column) (columns columns' : List Column) (b : Bool)
      (rest : Option (List Column))
      → (c.name == name) ≡ b
      → ((r : List Column) → rest ≡ some r → type_in name r ≡ some type')
      → (if b then some (with_type type' c ∷ columns) else put c rest) ≡ some columns'
      → type_in name columns' ≡ some type'
  set_step type' c columns columns' true rest b ih h =
      subst (λ x. type_in name x ≡ some type') (some-is (with_type type' c ∷ columns) columns' h)
        (type_in-here (with_type type' c) columns b)
  set_step type' c columns columns' false none b ih h = cc
  set_step type' c columns columns' false (some r) b ih h =
      subst (λ x. type_in name x ≡ some type') (some-is (c ∷ r) columns' h)
        (type_in-there c r b ∙ ih r refl)

  pub update_column-sets :
      (type' : SqlType) (columns columns' : List Column)
      → update_column name (with_type type') columns ≡ some columns'
      → type_in name columns' ≡ some type'
  unfolding update_column
  update_column-sets type' [] columns' h = cc
  update_column-sets type' (c ∷ columns) columns' h =
      set_step type' c columns columns' (c.name == name)
        (update_column name (with_type type') columns) refl (update_column-sets type' columns) h

  keep_step :
      (other : String) (f : Column → Column)
      (keeps : (c : Column) (columns : List Column)
        → type_in name (f c ∷ columns) ≡ type_in name (c ∷ columns))
      (c : Column) (columns columns' : List Column) (b : Bool) (rest : Option (List Column))
      → ((r : List Column) → rest ≡ some r → type_in name r ≡ type_in name columns)
      → (if b then some (f c ∷ columns) else put c rest) ≡ some columns'
      → type_in name columns' ≡ type_in name (c ∷ columns)
  unfolding type_in
  keep_step other f keeps c columns columns' true rest ih h =
      sym (ap (type_in name) (some-is (f c ∷ columns) columns' h)) ∙ keeps c columns
  keep_step other f keeps c columns columns' false none ih h = cc
  keep_step other f keeps c columns columns' false (some r) ih h =
      sym (ap (type_in name) (some-is (c ∷ r) columns' h))
      ∙ ap (λ x. if c.name == name then some c.sql_type else x) (ih r refl)

  pub update_column-keeps :
      (other : String) (f : Column → Column)
      (keeps : (c : Column) (columns : List Column)
        → type_in name (f c ∷ columns) ≡ type_in name (c ∷ columns))
      (columns columns' : List Column)
      → update_column other f columns ≡ some columns'
      → type_in name columns' ≡ type_in name columns
  unfolding update_column
  update_column-keeps other f keeps [] columns' h = cc
  update_column-keeps other f keeps (c ∷ columns) columns' h =
      keep_step other f keeps c columns columns' (c.name == other) (update_column other f columns)
        (update_column-keeps other f keeps columns) h

module _ (table name : String) where
  column_type-cons :
      (t t' : SqlTable) (tables : List SqlTable)
      → is_named table t' ≡ is_named table t
      → type_in name t'.columns ≡ type_in name t.columns
      → column_type table name (t' ∷ tables) ≡ column_type table name (t ∷ tables)
  unfolding column_type
  column_type-cons t t' tables n e = rw (column_type, n, e)

  column_type-tail :
      (t : SqlTable) (tables tables' : List SqlTable)
      → column_type table name tables' ≡ column_type table name tables
      → column_type table name (t ∷ tables') ≡ column_type table name (t ∷ tables)
  unfolding column_type
  column_type-tail t tables tables' e = rw (column_type, e)

  pub update_table-sets :
      (f : SqlTable → Option SqlTable) (type' : SqlType)
      (same_name : (t t' : SqlTable) → f t ≡ some t' → is_named table t' ≡ is_named table t)
      (sets : (t t' : SqlTable) → f t ≡ some t' → type_in name t'.columns ≡ some type')
      (tables tables' : List SqlTable)
      → IsUpdated table f tables tables'
      → column_type table name tables' ≡ some type'
  update_table-sets f type' same_name sets [] tables' u = cc
  update_table-sets f type' same_name sets (t ∷ tables) [] u = cc
  update_table-sets f type' same_name sets (t ∷ tables) (t' ∷ tables') (inl (b, e, same)) =
      column_type-here table name t' tables' (same_name t t' e ∙ b) ∙ sets t t' e
  update_table-sets f type' same_name sets (t ∷ tables) (t' ∷ tables') (inr (b, same, u)) =
      column_type-there table name t' tables' (ap (is_named table) same ∙ b)
      ∙ update_table-sets f type' same_name sets tables tables' u

  pub update_table-keeps :
      (other : String) (f : SqlTable → Option SqlTable)
      (same_name : (t t' : SqlTable) → f t ≡ some t' → is_named table t' ≡ is_named table t)
      (same_type : (t t' : SqlTable)
        → f t ≡ some t'
        → type_in name t'.columns ≡ type_in name t.columns)
      (tables tables' : List SqlTable)
      → IsUpdated other f tables tables'
      → column_type table name tables' ≡ column_type table name tables
  update_table-keeps other f same_name same_type [] tables' u = cc
  update_table-keeps other f same_name same_type (t ∷ tables) [] u = cc
  update_table-keeps other f same_name same_type (t ∷ tables) (t' ∷ tables') (inl (b, e, same)) =
      ap (λ x. column_type table name (t' ∷ x)) same
      ∙ column_type-cons t t' tables (same_name t t' e) (same_type t t' e)
  update_table-keeps other f same_name same_type (t ∷ tables) (t' ∷ tables') (inr (b, same, u)) =
      ap (λ x. column_type table name (x ∷ tables')) same
      ∙ column_type-tail t tables tables'
          (update_table-keeps other f same_name same_type tables tables' u)
