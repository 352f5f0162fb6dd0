-- ===== src/Primitives.antt =====
-- The crate primitives: extrinsics, what is signed with them, and fees.
pub mod Extrinsic
pub mod Params
pub mod Verifies
pub mod Tips
pub mod CallDecodes
pub mod Fees
pub mod DispatchInfo
