-- ===== src/Tts.antt =====
-- app/: the worker that synthesises speech.
pub mod JobStore
pub mod JobRunner
pub mod Chunking
pub mod Synthesis
