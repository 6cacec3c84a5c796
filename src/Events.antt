-- ===== src/Events.antt =====
-- The package events.
pub mod Update
pub mod Event
pub mod Dispatcher
pub mod Manager
pub mod Filters
pub mod Converters
pub mod Updates
