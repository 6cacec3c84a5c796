-- ===== src/Types.antt =====
-- types/: the shared types of the library.
pub mod Conversation
pub mod Permissions
pub mod Protection
