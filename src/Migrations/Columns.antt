-- ===== src/Migrations/Columns.antt =====
-- The columns and constraints that alembic/versions and app/models declare many times over.
use open_key_server.Base.{ℕ, String, Bool, true, false, none, some, List}
use open_key_server.Migrations.Catalog.{
  SqlType, uuid_type, varchar, timestamp_tz, Column, OnDelete, ForeignKey, UniqueConstraint, Index,
}

abbrev pub column : String → SqlType → Bool → Column
column name type' is_nullable = record {
  name = name;
  sql_type = type';
  is_nullable = is_nullable;
  server_default = none;
}

abbrev pub required : String → SqlType → Column
required name type' = column name type' false

abbrev pub optional : String → SqlType → Column
optional name type' = column name type' true

abbrev pub id : Column
id = required "id" uuid_type

-- `server_default=sa.text("now()")`
abbrev pub now_by_default : String → Column
now_by_default name = record {
  name = name;
  sql_type = timestamp_tz;
  is_nullable = false;
  server_default = some "now()";
}

abbrev pub string : ℕ → SqlType
string n = varchar (some n)

abbrev pub references : String → String → OnDelete → ForeignKey
references name target on_delete = record {
  column = name;
  target = target;
  target_column = "id";
  on_delete = on_delete;
}

abbrev pub unique : String → List String → UniqueConstraint
unique name columns = record { name = some name; columns = columns }

abbrev pub index_on : String → List String → Index
index_on name columns = record { name = name; columns = columns; is_unique = false }
