-- ===== src/Stt.antt =====
-- The speech-to-text crate (crates/stt/src): window cutting, the finalizer and the stream.
pub mod Chunker
pub mod Finalizer
pub mod Stream
