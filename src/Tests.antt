-- ===== src/Tests.antt =====
-- Each property at a concrete input, and runs of the definitions.
pub mod Frame
pub mod Io
pub mod Writer
pub mod Archive
pub mod App
pub mod Threads
