-- ===== src/Decoder/RoundTrip.antt =====
-- Decoding, encoding what was decoded, and decoding again.
pub mod Lookup
pub mod Pieces
pub mod Fields
pub mod Composites
pub mod Scalars
pub mod Compact
pub mod Values
pub mod Main
