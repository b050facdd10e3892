-- ===== src/Crypto.antt =====
-- src/crypto: the ciphers and codings of the protocols.
pub mod Base64
pub mod Bcrypt
pub mod Blowfish
pub mod Xtea
