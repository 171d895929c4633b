-- ===== src/Io.antt =====
-- The files of an archive: io/ShardReader.cpp.
pub mod Stream
pub mod Discover
pub mod Validate
pub mod Reader
pub mod Writer
pub mod ReadBack
