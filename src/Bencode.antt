-- ===== src/Bencode.antt =====
-- The bencode decoder, src/bencode.c and src/bencode.h: `Node` is the tree, `Cursor` the place in the
-- input, `Decode` the decoder; `Print` is bencoding as the format defines it, and `RoundTrip` what
-- the decoder makes of it; `Ends` is about other inputs.
pub mod Node
pub mod Cursor
pub mod Decode
pub mod Print
pub mod RoundTrip
pub mod Free
pub mod Dump
pub mod Ends
pub mod Info
