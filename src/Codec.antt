-- ===== src/Codec.antt =====
-- src/endian.h and src/buffer_util.h: the byte orders of the wire.
pub mod Endian
pub mod Portable
pub mod Native
pub mod Agree
pub mod TibiaString
mod Tests
