-- ===== src/Std.antt =====
-- The parts of Rust's standard library that the crate's own code computes with.
pub mod Bits
pub mod Chars
pub mod Strings
pub mod Ints
pub mod Bytes
pub mod Utf8
pub mod Paths
pub mod Maps
