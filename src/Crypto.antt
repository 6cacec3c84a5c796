-- ===== src/Crypto.antt =====
-- The package crypto.
pub mod Srp
