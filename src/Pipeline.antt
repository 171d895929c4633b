-- ===== src/Pipeline.antt =====
-- The threads of encryption and decryption: src/pipeline.
pub mod Queue
pub mod Order
pub mod Chunks
