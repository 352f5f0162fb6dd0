-- ===== src/Tests.antt =====
-- Concrete runs: a small node's metadata, and the theorems applied to it.
mod Sample
mod Decoding
mod Metadata
mod Events
mod Calls
mod Network
mod Channel
mod Termination
mod Denoting
mod Waiting
mod Hexes
mod Composing
mod Tipping
mod Queries
mod Runtime
