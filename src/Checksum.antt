-- ===== src/Checksum.antt =====
-- src/adler32.c and src/murmur2.c: the checksum of messages, and the hash of the configuration.
pub mod Adler
pub mod Murmur
