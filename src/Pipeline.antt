-- ===== src/Pipeline.antt =====
-- pipeline-worker/: the worker that downloads, transcribes, dubs and renders a video.
pub mod Jobs
pub mod Errors
pub mod Cache
pub mod Gemini
pub mod Speech
pub mod Tempo
pub mod Render
pub mod Scheduler
pub mod Segments
pub mod Api
pub mod Run
pub mod Align
pub mod Chunking
