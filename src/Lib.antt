-- ===== src/Lib.antt =====
-- The OpenKey sync server: accounts, personal vaults, shares and organisations over one database.
--
-- A request comes in through a router of app/api, as a user whom app/api/deps.py reads off a bearer
-- token; its body is checked by app/schemas, and its endpoint reads and writes the tables of
-- app/models in one session, which app/db/session.py commits at the end or rolls back on an
-- exception. Sessions of users are the business of app/services/auth_service.py, and the endpoints
-- under /auth are limited by app/rate_limit.py.
--
-- Which file models what:
--   Base, Text          numbers, lists, tests and the methods of `str` that the program calls
--   Models              app/models: one record per table, and the database as the record of its tables
--   Orm                 the session and the tables: `get_db` (app/db/session.py), queries, inserts,
--                       flushes of changed rows and deletions, the unique constraints and the ranges of
--                       the number columns; with it the ways to reason about them
--   Schemas             app/schemas: bodies, their validation and the responses
--   Services.Auth       app/services/auth_service.py: `normalize_auth_hash` is `_normalize_auth_hash`,
--                       `issue_tokens` is `_issue_tokens`, `punish_reuse` the branch of `refresh` for a
--                       revoked token, `delete_user` what `session.delete(user)` cascades to
--   Api.Collections, Api.Entries, Api.Attachments, Api.Shares, Api.Orgs, Api.Auth, Api.Deps
--                       the modules of app/api with those names; an endpoint has its Python name.
--                       Api.Orgs.Members and Api.Orgs.Items are the two halves of app/api/orgs.py
--   Base64, Double      what the program uses of Python's base64 and of floating-point numbers
--   Api.Sync            app/api/sync.py: `upsert_entry_row` is `_upsert_entry_row` (and so on), which says
--                       what becomes of the stored row in place of changing it; `merge_by_uuid`, in
--                       Response, is `_merge_by_uuid`. Cursor has `_since_to_datetime` and
--                       `_datetime_to_revision`; Push the rows that the session holds, the loop over the
--                       items and the flush, once for any of the three tables; Endpoint `sync_vault`
--   Api.Vault           the requests of the vault modules and of sync together
--   Config              app/config.py: the validators of the settings, `cors_origin_list` and
--                       `cors_origin_regex`
--   Migrations          app/db/migrate.py and alembic: Catalog has the tables and the SQL statements on
--                       them, Initial and Versions the scripts of alembic/versions, Metadata the tables
--                       that app/models declares, Startup the steps of `run_migrations`
--   RateLimit           app/rate_limit.py: `check` is SlidingWindowRateLimiter.check
--   App                 the requests of all routers, from the empty database on
--   Tests               a small database and runs on it
--
-- An endpoint is an action of a session: it reads and writes the current state, and returns or raises;
-- what it wrote before it raises is undone by `get_db`, except for what it has committed. SQLAlchemy
-- and PostgreSQL are modelled by what the program relies on: a flush is refused if it would break a
-- unique constraint, put a null into a NOT NULL column or overflow a number column. Foreign keys are
-- modelled where rows are deleted, lengths of text columns are not. Requests run one after another;
-- the row lock of `refresh` and the interleaving of transactions are left to the database.
--
-- Times are whole microseconds, keys are numbers. A request reads the process's clock and the
-- database's once. Loops are structural recursion on what they walk over; the two on fuel, the digits
-- of a number and the chunks of a download, are given more than they use. PyJWT, SHA-256, the text
-- form of a UUID and the check of an e-mail address are parameters, with what is assumed of them in
-- the theorems' hypotheses; PyJWT is taken to read a token back from its `iat` until it expires, not
-- before. `str.lower` changes ASCII letters only here, while Python's lowers the others too.
--
-- In a sync SQLAlchemy writes the rows that an item has touched before the next query or at
-- `db.flush()`; the model flushes each table after its loop, which comes to the same, since nothing but
-- a flush can raise in between. A row that the session holds is one object: the list of conflicts is
-- modelled by uuids, so that what a later item makes of a row shows in the echo. Seconds since 1970 are
-- doubles that are rounded as IEEE 754 says; the fuel of the search for their scale is the scale of the
-- least double. A cursor beyond the year 9999 raises, as `datetime.fromtimestamp` does.
--
-- The migrations see the tables of the schema and not their rows, so no statement fails because of
-- what is stored; nor does one fail because a unique constraint would have a name that is taken, or a
-- table that of an index and the other way round, which PostgreSQL refuses. A step of `run_migrations`
-- is a transaction of its own: when it fails it leaves the database as the steps before it have made
-- it, and the model says so beside the database. Alembic's `upgrade` runs all the scripts from the
-- revision it finds on in one transaction, `stamp` only records the head.
--
-- Not modelled: how pydantic reads the settings from the environment, the offline mode of alembic/env.py
-- (which prints SQL), app/main.py beyond its routers and the migrations (CORS, headers, health check).
pub mod Base
pub mod Models
pub mod Text
pub mod Base64
pub mod Config
pub mod Double
pub mod Schemas
pub mod Orm
pub mod Migrations
pub mod Api
pub mod Services
pub mod RateLimit
pub mod App
pub mod Tests
