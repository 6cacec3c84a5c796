-- ===== src/Session.antt =====
-- The package session.
pub mod Cache
pub mod Strings
