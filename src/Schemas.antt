-- ===== src/Schemas.antt =====
-- app/schemas/: the bodies of requests and responses.
pub mod VaultIds
pub mod Fields
pub mod Collections
pub mod Entries
pub mod Attachments
pub mod Shares
pub mod Sync
pub mod Auth
pub mod Orgs
