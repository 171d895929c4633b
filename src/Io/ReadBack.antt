-- ===== src/Io/ReadBack.antt =====
-- A ShardReader (io/ShardReader.cpp) over the files of a ShardWriter (io/ShardWriter.cpp).
pub mod Frames
pub mod Headers
pub mod Discovered
pub mod Validated
pub mod Chunks
pub mod RoundTrip
