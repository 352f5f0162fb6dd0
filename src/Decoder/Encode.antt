-- ===== src/Decoder/Encode.antt =====
-- node-api/src/decoder/encode.rs: values to bytes, by the shape of a type.
-- `bytes: &mut Vec<u8>` is only appended to: a call gives the bytes that it appends, also where it
-- fails, and its result.
pub mod Named
pub mod Writer
pub mod Fields
pub mod Scalars
pub mod Shapes
unfoldable pub use Writer.*
unfoldable pub use Named.*
unfoldable pub use Fields.*
unfoldable pub use Scalars.*
unfoldable pub use Shapes.*
