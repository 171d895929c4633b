-- ===== src/Crypto.antt =====
-- The keys of an archive: src/crypto.
pub mod Kdf
pub mod Keys
