-- ===== src/NameCodec.antt =====
-- trivial/name_codec.c: Chinese family names to characters of a magnet link. `Utf8` has the UTF-8
-- encoder, decoder and stream, `Tables` the two static tables, `Search` the binary search over
-- the sorted one, and `Main` the program's loop.
pub mod Utf8
pub mod Stream
pub mod Tables
pub mod Search
pub mod Main
mod Tests
