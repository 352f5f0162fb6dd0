-- ===== src/Client.antt =====
-- The crate's own src/: the client of a node's RPC interface.
pub mod Status
pub mod Error
pub mod State
pub mod Reads
pub mod System
pub mod Runtime
pub mod Updates
pub mod Nonce
pub mod EventsKey
pub mod Chain
pub mod Payment
pub mod WaitForEvent
pub mod FoundEvent
pub mod Submit
pub mod Extrinsics
pub mod Watch
pub mod Hex
