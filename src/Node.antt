-- ===== src/Node.antt =====
-- The crate node-api: metadata, storage keys, events and dispatch errors of a node.
pub mod Maps
pub mod Runtime
pub mod Metadata
pub mod Storage
pub mod Error
pub mod Events
pub mod Dispatch
