-- ===== src/Services.antt =====
-- app/services/
pub mod Auth
