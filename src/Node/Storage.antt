-- ===== src/Node/Storage.antt =====
-- node-api/src/storage.rs.
pub mod Keys
pub mod Laws
pub mod Double
