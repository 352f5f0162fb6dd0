-- ===== src/Client/Extrinsics.antt =====
-- src/src/extrinsic: the calls of single pallets, each composed by `compose_extrinsic!`.
pub mod Common
pub mod Balances
pub mod Staking
pub mod Utility
pub mod Contracts
