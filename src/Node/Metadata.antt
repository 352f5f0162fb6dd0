-- ===== src/Node/Metadata.antt =====
-- node-api/src/metadata.rs.
pub mod Types
pub mod Collect
pub mod Lookup
pub mod Found
pub mod Names
pub mod CallTypes
