-- ===== src/Tests.antt =====
-- Runs of the program on concrete requests.
pub mod Data
mod Sessions
mod Vaults
mod Sharing
mod Limits
mod Syncs
mod Pulls
mod Databases
mod Settings
