-- ===== src/Bencode/RoundTrip.antt =====
-- What the decoder of src/bencode.c makes of an encoding.
pub mod Numbers
pub mod Texts
pub mod Bytes
pub mod Trees
