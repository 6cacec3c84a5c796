-- ===== src/Utils.antt =====
-- The package utils.
pub mod Chunks
pub mod Peers
