-- ===== src/Codec.antt =====
-- The encodings of the standard library that the program's formats are built from: hexadecimal text
-- and big-endian words.
pub mod Hex
pub mod BigEndian
pub mod Bits
