-- ===== src/Decoder.antt =====
-- node-api/src/decoder: dynamic SCALE values.
pub mod Registry
pub mod BitSequence
pub mod Value
pub mod Construct
pub mod Decode
pub mod Encode
pub mod RoundTrip
pub mod Front
pub mod Ends
pub mod Terminates
pub mod EncodeEnds
pub mod Denotes
