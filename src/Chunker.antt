-- ===== src/Chunker.antt =====
-- engine/chunker: the chunkers of advertisement entries.
pub mod Cached
pub mod Chain
