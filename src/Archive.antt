-- ===== src/Archive.antt =====
-- The plaintext archive stream: src/archive.
pub mod Record
pub mod Path
pub mod Reader
pub mod Meta
