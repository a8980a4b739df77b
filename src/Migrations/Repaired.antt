-- ===== src/Migrations/Repaired.antt =====
-- app/db/migrate.py: what the repairs of an older database come to.
use open_key_server.Base.{
  ◌≡◌, refl, ap, Bool, true, false, Option, none, some, List, string_eq, if◌then◌else◌,
}
use open_key_server.Migrations.Catalog.{SqlTable, run}
use open_key_server.Migrations.Metadata.{metadata}
use open_key_server.Migrations.Startup.{
  Database, schema_repairs, apply_schema_repairs, create_missing_tables, create_all, commit_or_fail,
  with_tables, ◌then◌,
}

pub returned : {A : Type 0} (x y : A) → ◌≡◌ {A = Bool × A} (true, x) (true, y) → x ≡ y
returned x y h = ap (λ p. p.1) h

pub not_returned : {A : Type 0} {B : Type 0} (x y : A) → ◌≡◌ {A = Bool × A} (false, x) (true, y) → B
not_returned x y h = absurd (ap (λ p. p.0) h)
  where
    absurd : {C : Type 0} → false ≡ true → C
    absurd e = cc

-- What the repairs come to, when they return.
pub repaired :
    (db x : Database)
    → (apply_schema_repairs then create_missing_tables) db ≡ (true, x)
    → (tables : List SqlTable) × (tables' : List SqlTable) × (run schema_repairs db.tables
        ≡ some tables)
      × (create_all metadata tables ≡ some tables')
      × (record db { tables = tables' } ≡ x)
repaired db x h = go (run schema_repairs db.tables) refl h
  where
    go :
        (o : Option (List SqlTable))
        → run schema_repairs db.tables ≡ o
        → ((λ d. commit_or_fail db (with_tables db o)) then create_missing_tables) db ≡ (true, x)
        → (tables : List SqlTable) × (tables' : List SqlTable) × (run schema_repairs db.tables
            ≡ some tables)
          × (create_all metadata tables ≡ some tables')
          × (record db { tables = tables' } ≡ x)
    go none e h = not_returned db x h
    go (some tables) e h = last (create_all metadata tables) refl h
      where
        last :
            (o : Option (List SqlTable))
            → create_all metadata tables ≡ o
            → commit_or_fail
                (record db { tables = tables })
                (with_tables (record db { tables = tables }) o)
              ≡ (true, x)
            → (tables : List SqlTable) × (tables' : List SqlTable) × (run schema_repairs db.tables
                ≡ some tables)
              × (create_all metadata tables ≡ some tables')
              × (record db { tables = tables' } ≡ x)
        last none e' h = not_returned (record db { tables = tables }) x h
        last (some tables') e' h = (tables, tables', e, e', returned _ x h)
