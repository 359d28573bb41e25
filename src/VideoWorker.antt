-- ===== src/VideoWorker.antt =====
-- video-worker/: the worker that downloads a video from a URL that a user gives.
pub mod Platforms
pub mod Errors
pub mod Downloads
