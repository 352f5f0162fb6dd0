-- ===== src/Node/Events.antt =====
-- node-api/src/events.rs.
pub mod Slices
pub mod Details
pub mod Iterate
pub mod Parts
pub mod Layout
pub mod Cover
pub mod Calls
