-- ===== src/Codec/Sample.antt =====
-- A lawful codec for concrete runs: integers and compact integers as in SCALE, texts and bit vectors
-- in a plain form.
pub mod Integers
pub mod Texts
pub mod Compacts
pub mod Instance
pub mod Consuming
pub mod Returning
