-- ===== src/Writer.antt =====
-- storage/gsbm/writer.go: the Writer in its buffered, counting and streaming modes.
pub mod State
pub mod Fields
pub mod Regions
pub mod Cached
pub mod Replay
pub mod Sticky
pub mod Calls
pub mod Buffered
pub mod Counting
pub mod Streaming
