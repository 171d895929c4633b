-- ===== src/App.antt =====
-- The planning of an archive: src/app/CoreApi.cpp.
pub mod Plan
pub mod Padding
