-- ===== src/Migrations/Catalog.antt =====
-- The tables of the schema `public` and the statements on them that alembic/versions and
-- app/db/migrate.py send, as PostgreSQL carries them out; the rows of the tables are left
-- out, and so is its refusal of a unique constraint's name that is taken, or of a table's name that is
-- an index's.
use open_key_server.Base.{
  ℕ, String, Bool, true, ◌&&◌, not, Option, none, some, List, [], ◌∷◌, ◌++◌, any, ◌==◌, string_eq,
  if◌then◌else◌,
}

-- `varchar none` is VARCHAR without a length.
pub data SqlType : Type 0 where
  uuid_type boolean integer big_integer text jsonb large_binary timestamp_tz : SqlType
  varchar : Option ℕ → SqlType

pub record Column : Type 0 where
  pub name : String
  pub sql_type : SqlType
  pub is_nullable : Bool
  pub server_default : Option String

pub data OnDelete : Type 0 where
  cascade set_null : OnDelete

pub record ForeignKey : Type 0 where
  pub column : String
  pub target : String
  pub target_column : String
  pub on_delete : OnDelete

pub record UniqueConstraint : Type 0 where
  pub name : Option String
  pub columns : List String

pub record Index : Type 0 where
  pub name : String
  pub columns : List String
  pub is_unique : Bool

pub record SqlTable : Type 0 where
  pub name : String
  pub columns : List Column
  pub foreign_keys : List ForeignKey
  pub primary_key : List String
  pub uniques : List UniqueConstraint
  pub indexes : List Index

pub data Op : Type 0 where
  create_table : SqlTable → Op
  create_index : String → Index → Op
  -- The table, the column, the type it is said to have, and the new one.
  alter_column : String → String → SqlType → SqlType → Op
  drop_index drop_table : String → Op
  add_column_if_not_exists : String → Column → Op
  set_type : String → String → SqlType → Op
  set_default : String → String → String → Op

abbrev pub put : {A : Type 0} → A → Option (List A) → Option (List A)
put x none = none
put x (some xs) = some (x ∷ xs)

abbrev pub is_named : String → SqlTable → Bool
is_named name t = t.name == name

unfoldable pub has_table : String → List SqlTable → Bool
has_table name tables = any (is_named name) tables

abbrev pub has_index : String → SqlTable → Bool
has_index name t = any (λ i. i.name == name) t.indexes

abbrev pub refers_to : String → SqlTable → Bool
refers_to name t = any (λ k. k.target == name) t.foreign_keys

unfoldable pub has_targets : List ForeignKey → List SqlTable → Bool
has_targets [] tables = true
has_targets (k ∷ keys) tables = has_table k.target tables && has_targets keys tables

-- `ALTER TABLE name …`, which fails if there is no such table.
unfoldable pub update_table :
    String → (SqlTable → Option SqlTable) → List SqlTable → Option (List SqlTable)
update_table name f [] = none
update_table name f (t ∷ tables) =
    let rest = update_table name f tables in
    if is_named name t
    then elim (f t) [ none ↦ none | some t' ↦ some (t' ∷ tables) ]
    else put t rest

unfoldable pub update_column : String → (Column → Column) → List Column → Option (List Column)
update_column name f [] = none
update_column name f (c ∷ columns) =
    let rest = update_column name f columns in
    if c.name == name then some (f c ∷ columns) else put c rest

abbrev pub in_column : String → (Column → Column) → SqlTable → Option SqlTable
in_column name f t = elim (update_column name f t.columns) [
  | none ↦ none
  | some columns ↦ some (record t { columns = columns })
]

abbrev pub with_type : SqlType → Column → Column
with_type type' c = record c { sql_type = type' }

unfoldable pub has_columns : List String → List Column → Bool
has_columns [] columns = true
has_columns (name ∷ names) columns = any (λ c. c.name == name) columns && has_columns names columns

abbrev pub add_index : Index → SqlTable → Option SqlTable
add_index i t =
    if has_columns i.columns t.columns then some (record t { indexes = i ∷ t.indexes }) else none

unfoldable pub without_index : String → List Index → Option (List Index)
without_index name [] = none
without_index name (i ∷ indexes) =
    let rest = without_index name indexes in if i.name == name then some indexes else put i rest

-- `DROP INDEX name`
unfoldable pub remove_index : String → List SqlTable → Option (List SqlTable)
remove_index name [] = none
remove_index name (t ∷ tables) =
    let rest = remove_index name tables in
    elim (without_index name t.indexes) [
      | some indexes ↦ some (record t { indexes = indexes } ∷ tables)
      | none ↦ put t rest
    ]

unfoldable pub without_table : String → List SqlTable → Option (List SqlTable)
without_table name [] = none
without_table name (t ∷ tables) =
    let rest = without_table name tables in if is_named name t then some tables else put t rest

-- `DROP TABLE name`, which fails if another table refers to it.
unfoldable pub remove_table : String → List SqlTable → Option (List SqlTable)
remove_table name tables = elim (without_table name tables) [
  | none ↦ none
  | some rest ↦ if any (refers_to name) rest then none else some rest
]

abbrev pub add_column : Column → SqlTable → SqlTable
add_column c t =
    if any (λ other. other.name == c.name) t.columns
    then t
    else record t { columns = t.columns ++ c ∷ [] }

unfoldable pub run_op : Op → List SqlTable → Option (List SqlTable)
run_op (create_table t) tables =
    if not (has_table t.name tables) && has_targets t.foreign_keys (t ∷ tables)
    then some (t ∷ tables)
    else none
run_op (create_index name i) tables =
    if any (has_index i.name) tables then none else update_table name (add_index i) tables
run_op (alter_column name column existing type') tables =
    update_table name (in_column column (with_type type')) tables
run_op (drop_index name) tables = remove_index name tables
run_op (drop_table name) tables = remove_table name tables
run_op (add_column_if_not_exists name c) tables =
    update_table name (λ t. some (add_column c t)) tables
run_op (set_type name column type') tables =
    update_table name (in_column column (with_type type')) tables
run_op (set_default name column default) tables =
    update_table name (in_column column (λ c. record c { server_default = some default })) tables

-- The statements of a script, in one transaction.
unfoldable pub run : List Op → List SqlTable → Option (List SqlTable)
run [] tables = some tables
run (op ∷ ops) tables = elim (run_op op tables) [ none ↦ none | some tables' ↦ run ops tables' ]
