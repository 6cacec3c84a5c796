-- ===== src/Helpers.antt =====
-- helpers/helpers.go: UTF-16 text, message entities and the stripping of a formatted text.
pub mod Utf16
pub mod Entity
pub mod Strip
mod Tests
