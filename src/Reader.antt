-- ===== src/Reader.antt =====
-- storage/gsbm/reader.go and the read side of presence.go: bounded decoding of a caller's slice.
pub mod State
pub mod Fields
pub mod Regions
pub mod Safety
pub mod Cursor
pub mod Shapes
pub mod Skip
pub mod Header
pub mod Decode
pub mod Source
