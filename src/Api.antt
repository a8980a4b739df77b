-- ===== src/Api.antt =====
-- app/api/: the endpoints.
pub mod Request
pub mod Collections
pub mod Entries
pub mod Attachments
pub mod Shares
pub mod Sync
pub mod Vault
pub mod Deps
pub mod Auth
pub mod Orgs
