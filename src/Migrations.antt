-- ===== src/Migrations.antt =====
-- app/db/migrate.py and alembic/versions: the tables of the database and the scripts that change them.
pub mod Catalog
pub mod Columns
pub mod Initial
pub mod Versions
pub mod Metadata
pub mod Startup
pub mod Keeps
pub mod Types
pub mod Indexes
pub mod Closed
pub mod Scripts
pub mod Missing
pub mod Kept
pub mod MissingTypes
pub mod Agree
pub mod Frame
pub mod Fresh
pub mod RoundTrip
pub mod Repaired
pub mod Again
pub mod Narrowed
