-- ===== src/Writer/Streaming.antt =====
-- The Writer in streaming mode over an `io.Writer` that accepts every payload: what was delivered
-- and what is still buffered make up the wire form.
pub mod Flush
pub mod Methods
pub mod Run
