-- ===== src/Orm.antt =====
-- The session and the tables, as SQLAlchemy and PostgreSQL present them to the program.
pub mod Rows
pub mod Session
pub mod Tables
pub mod Schema
pub mod Lookup
pub mod Keeps
pub mod Integrity
pub mod Effects
pub mod Keys
pub mod Changes
pub mod Outcomes
