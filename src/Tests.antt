-- ===== src/Tests.antt =====
-- Runs of storage/gsbm on concrete inputs, and the theorems applied to them.
mod Values
mod Wire
mod Writer
mod Reader
mod Blobs
mod Pool
mod Schema
mod Strings
mod Tags
mod Checks
mod GoTypes
mod Codecs
