-- ===== src/Migrations/Agree.antt =====
-- When the tables of a database are those that app/models declares.
use open_key_server.Base.{
  ℕ, Bool, true, false, ◌&&◌, Option, none, List, [], ◌∷◌, any, ◌==◌, string_eq, nat_eq, bool_eq,
  option_eq, list_eq,
}
use open_key_server.Migrations.Catalog.{
  SqlType, uuid_type, boolean, integer, big_integer, text, jsonb, large_binary, timestamp_tz,
  varchar, Column, OnDelete, cascade, set_null, ForeignKey, UniqueConstraint, Index, SqlTable,
}

-- The kind of a type and its length: VARCHAR without a length and TEXT hold the same values.
abbrev kind : SqlType → ℕ
kind uuid_type = 0
kind boolean = 1
kind integer = 2
kind big_integer = 3
kind jsonb = 4
kind large_binary = 5
kind timestamp_tz = 6
kind text = 7
kind (varchar n) = 7

abbrev width : SqlType → Option ℕ
width (varchar n) = n
width _ = none

abbrev same_type : SqlType → SqlType → Bool
same_type a b = kind a == kind b && width a == width b

-- A server default fills in a column that an INSERT leaves out, which the models never do.
abbrev same_column : Column → Column → Bool
same_column a b =
    a.name == b.name && same_type a.sql_type b.sql_type && a.is_nullable == b.is_nullable

abbrev cascades : OnDelete → Bool
cascades cascade = true
cascades set_null = false

abbrev same_key : ForeignKey → ForeignKey → Bool
same_key a b =
    a.column == b.column
    && a.target == b.target
    && a.target_column == b.target_column
    && cascades a.on_delete == cascades b.on_delete

abbrev same_unique : UniqueConstraint → UniqueConstraint → Bool
same_unique a b = a.name == b.name && a.columns == b.columns

abbrev same_index : Index → Index → Bool
same_index a b = a.name == b.name && a.columns == b.columns && a.is_unique == b.is_unique

unfoldable pub same_list : {A : Type 0} → (A → A → Bool) → List A → List A → Bool
same_list same [] [] = true
same_list same [] (y ∷ ys) = false
same_list same (x ∷ xs) [] = false
same_list same (x ∷ xs) (y ∷ ys) = same x y && same_list same xs ys

unfoldable pub has_each : {A : Type 0} → (A → A → Bool) → List A → List A → Bool
has_each same [] ys = true
has_each same (x ∷ xs) ys = any (same x) ys && has_each same xs ys

-- In any order.
unfoldable pub same_set : {A : Type 0} → (A → A → Bool) → List A → List A → Bool
same_set same xs ys = has_each same xs ys && has_each same ys xs

unfoldable pub same_table : SqlTable → SqlTable → Bool
same_table a b =
    a.name == b.name
    && same_list same_column a.columns b.columns
    && same_set same_key a.foreign_keys b.foreign_keys
    && a.primary_key == b.primary_key
    && same_set same_unique a.uniques b.uniques
    && same_set same_index a.indexes b.indexes

unfoldable pub agree : List SqlTable → List SqlTable → Bool
agree declared tables = same_set same_table declared tables
