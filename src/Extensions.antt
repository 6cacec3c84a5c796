-- ===== src/Extensions.antt =====
-- The package client/extensions.
pub mod Markdown
