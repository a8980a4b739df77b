-- ===== src/Migrations/Again.antt =====
-- app/db/migrate.py: the migrations of a server that starts again.
use open_key_server.Base.{
  ◌≡◌, refl, ap, ◌∙◌, subst, Bool, true, false, not, ◌&&◌, ◌||◌, Option, none, some, List, concat,
  map, any, string_eq, if◌then◌else◌, arith,
}
use open_key_server.Migrations.Catalog.{SqlTable, Op, has_table, run}
use open_key_server.Migrations.Closed.{is_undoable}
use open_key_server.Migrations.Scripts.{all_undoable, creates, has_table-run}
use open_key_server.Migrations.Missing.{create_all-has_table}
use open_key_server.Migrations.Versions.{
  Revision, initial_schema, refresh_tokens_added, org_entries_added, sync_updated_at_indexes,
  collection_icon_color, head, upgrade,
}
use open_key_server.Migrations.Metadata.{metadata}
use open_key_server.Migrations.Startup.{
  Database, apply_schema_repairs, create_missing_tables, create_all, at_head, stamp_head,
  return_now, upgraded, commit_or_fail, upgrade_head, script_from, pending, has_users, has_refresh,
  ◌then◌, run_migrations,
}
use open_key_server.Migrations.Repaired.{returned, not_returned, repaired}

pub data_at_head : List SqlTable → Database
data_at_head tables = record { tables = tables; has_version = true; version = some head }

IsSettled : List SqlTable → Type 0
IsSettled tables = has_table "users" tables && not (has_table "refresh_tokens" tables) ≡ false

settled_by_refresh : (a b : Bool) → b ≡ true → a && not b ≡ false
settled_by_refresh a b h = ground arith

create_all-IsSettled :
    (tables tables' : List SqlTable) → create_all metadata tables ≡ some tables' → IsSettled tables'
unfolding any IsSettled
create_all-IsSettled tables tables' h =
    settled_by_refresh (has_table "users" tables') (has_table "refresh_tokens" tables')
      (create_all-has_table "refresh_tokens" metadata tables tables' refl h)

-- A database at the head that lacks nothing is left as it is.
run_migrations-data_at_head :
    (tables : List SqlTable)
    → IsSettled tables
    → run_migrations (data_at_head tables) ≡ (true, data_at_head tables)
unfolding run_migrations data_at_head IsSettled script_from concat run
run_migrations-data_at_head tables h =
    go (has_table "users" tables) (has_table "refresh_tokens" tables) refl refl h
  where
    go :
        (u r : Bool)
        → has_table "users" tables ≡ u
        → has_table "refresh_tokens" tables ≡ r
        → u && not r ≡ false
        → run_migrations (data_at_head tables) ≡ (true, data_at_head tables)
    go true true e f h = rw (e, f)
    go true false e f h = cc
    go false r e f h = rw e

kept_settled :
    (users version refresh : Bool)
    → users && not version ≡ false
    → users && version && not refresh ≡ false
    → users && not refresh ≡ false
kept_settled true true refresh h e = e
kept_settled true false refresh h e = cc
kept_settled false version refresh h e = refl

-- The scripts from a revision on leave no database without `refresh_tokens` that has `users`, unless it
-- was one before.
script_from-IsSettled :
    (version : Option Revision) (tables tables' : List SqlTable)
    → run (script_from version) tables ≡ some tables'
    → IsSettled tables
    → IsSettled tables'
unfolding IsSettled script_from all_undoable concat upgrade is_undoable any creates
script_from-IsSettled version tables tables' h settled = go version h
  where
    added :
        (ops : List Op)
        → all_undoable ops ≡ true
        → any (creates "refresh_tokens") ops ≡ true
        → run ops tables ≡ some tables'
        → has_table "users" tables' && not (has_table "refresh_tokens" tables') ≡ false
    added ops u c h =
        settled_by_refresh (has_table "users" tables') (has_table "refresh_tokens" tables') (
          has_table-run "refresh_tokens" ops tables tables' u h
          ∙ ap (λ b. b || has_table "refresh_tokens" tables) c)

    same :
        (ops : List Op)
        → all_undoable ops ≡ true
        → any (creates "users") ops ≡ false
        → any (creates "refresh_tokens") ops ≡ false
        → run ops tables ≡ some tables'
        → has_table "users" tables' && not (has_table "refresh_tokens" tables') ≡ false
    same ops u c d h =
        let users =
          has_table-run "users" ops tables tables' u h
          ∙ ap (λ b. b || has_table "users" tables) c in
        let refresh =
          has_table-run "refresh_tokens" ops tables tables' u h
          ∙ ap (λ b. b || has_table "refresh_tokens" tables) d in
        rw (users, refresh) settled

    go :
        (v : Option Revision)
        → run (concat (map upgrade (pending v))) tables ≡ some tables'
        → has_table "users" tables' && not (has_table "refresh_tokens" tables') ≡ false
    go none h = added (script_from none) refl refl h
    go (some initial_schema) h = added (script_from (some initial_schema)) refl refl h
    go (some refresh_tokens_added) h =
        same (script_from (some refresh_tokens_added)) refl refl refl h
    go (some org_entries_added) h = same (script_from (some org_entries_added)) refl refl refl h
    go (some sync_updated_at_indexes) h =
        same (script_from (some sync_updated_at_indexes)) refl refl refl h
    go (some collection_icon_color) h =
        same (script_from (some collection_icon_color)) refl refl refl h

-- What a start that returned has made of the database.
pub Ended : Database → Type 0
Ended x = (tables : List SqlTable) × IsSettled tables × (data_at_head tables ≡ x)

legacy-Ended :
    (db x : Database)
    → (apply_schema_repairs then create_missing_tables then stamp_head) db ≡ (true, x)
    → Ended x
unfolding Ended data_at_head
legacy-Ended db x h = go ((apply_schema_repairs then create_missing_tables) db) refl h
  where
    go :
        (r : Bool × Database)
        → (apply_schema_repairs then create_missing_tables) db ≡ r
        → ((λ d. r) then stamp_head) db ≡ (true, x)
        → (tables : List SqlTable) × IsSettled tables × (data_at_head tables ≡ x)
    go (false, y) e h = not_returned y x h
    go (true, y) e h =
        let (tables, tables', first, second, same) = repaired db y e in
        (
          tables',
          create_all-IsSettled tables tables' second,
          ap at_head same ∙ returned (at_head y) x h,
        )

upgraded-Ended :
    (db x : Database) (repairs : Bool)
    → has_users db && not db.has_version ≡ false
    → has_users db && db.has_version && not (has_refresh db) ≡ repairs
    → (upgrade_head
          then (if repairs then apply_schema_repairs then create_missing_tables else return_now))
        db
      ≡ (true, x)
    → Ended x
unfolding Ended data_at_head IsSettled
upgraded-Ended db x repairs l r h = go (run (script_from db.version) db.tables) refl repairs r h
  where
    go :
        (o : Option (List SqlTable))
        → run (script_from db.version) db.tables ≡ o
        → (b : Bool) → has_users db && db.has_version && not (has_refresh db) ≡ b
        → ((λ d. commit_or_fail db (upgraded db o))
              then (if b then apply_schema_repairs then create_missing_tables else return_now))
            db
          ≡ (true, x)
        → (tables : List SqlTable) × IsSettled tables × (data_at_head tables ≡ x)
    go none e b r h = not_returned db x h
    go (some tables) e true r h =
        let (tables', tables'', first, second, same) = repaired (data_at_head tables) x h in
        (tables'', create_all-IsSettled tables' tables'' second, same)
    go (some tables) e false r h = (
      tables,
      script_from-IsSettled db.version db.tables tables e
          (kept_settled (has_users db) db.has_version (has_refresh db) l r),
      returned (data_at_head tables) x h,
    )

run_migrations-Ended : (db x : Database) → run_migrations db ≡ (true, x) → Ended x
unfolding run_migrations
run_migrations-Ended db x h = go (has_users db && not db.has_version) refl h
  where
    go :
        (legacy : Bool)
        → has_users db && not db.has_version ≡ legacy
        → (if legacy
            then (apply_schema_repairs then create_missing_tables then stamp_head) db
            else (upgrade_head
                  then (if has_users db && db.has_version && not (has_refresh db)
                      then apply_schema_repairs
                      then create_missing_tables
                      else return_now))
                db)
          ≡ (true, x)
        → Ended x
    go true e h = legacy-Ended db x h
    go false e h = upgraded-Ended db x _ e refl h

-- A start of the server whose migrations returned leaves a database on which they return again
-- and change nothing, whatever database it found.
pub run_migrations-run_migrations :
    (db db' : Database) → run_migrations db ≡ (true, db') → run_migrations db' ≡ (true, db')
unfolding Ended
run_migrations-run_migrations db db' h =
    let (tables, settled, same) = run_migrations-Ended db db' h in
    subst (λ x. run_migrations x ≡ (true, x)) same (run_migrations-data_at_head tables settled)
