-- ===== src/Lib.antt =====
-- A verification library for the ai-trans-clips workers: three Python services that share one
-- signing scheme. The TTS worker (app/) synthesises speech, the video worker (video-worker/)
-- downloads videos, and the pipeline worker (pipeline-worker/) transcribes, translates, dubs and
-- renders a video, with a job store and a scheduler of its own.
--
-- Prelude and its children hold what the rest shares: Boolean tests, lists over native numbers,
-- equality of keys as instances, integers, Python's stable sort, Python's dict with its insertion
-- order, and text operations.
--
-- Security models pipeline-worker/security.py, its copy video-worker/security.py and
-- app/core/security.py: NonceStore and SignatureVerifier.verify, with SHA-256 and HMAC as
-- parameters. Security.Middleware models the HMACAuthMiddleware of pipeline-worker/auth.py and of
-- app/core/middleware.py, which reads the body and calls verify before a route runs.
--
-- Pipeline models the pipeline worker. Pipeline.Jobs is jobs.py, the job record and the store with
-- its lazy expiry and its event queues. Pipeline.Api is main.py: the route that creates a job
-- (create_translate_job), the one that cancels it (cancel_job) and the watchdog
-- (_reap_stalled_jobs), all over that store. Pipeline.Scheduler is the dispatcher of scheduler.py,
-- which starts the queued jobs of the store; Pipeline.Run is what run_pipeline of pipeline.py writes
-- to its job. Of the stages, Pipeline.Chunking is chunking.py, Pipeline.Segments is segments.py,
-- Pipeline.Align is the onsets and the intervals of align.py and the placement of the clips in
-- pipeline.py, Pipeline.Tempo is the slowdown and fit_to_slot of align.py, and Pipeline.Render is the
-- dub track and the filter graph of mux.py. Of the clients, Pipeline.Gemini is gemini.py
-- (transcribe_and_translate and translate_text, with their loops over models and keys),
-- Pipeline.Speech is tts.py, which signs what Security.verify_tts checks, and both keep their results
-- in Pipeline.Cache, which is cache.py. Pipeline.Errors is errors.py.
--
-- Tts models the TTS worker. Tts.JobStore is MemoryJobStore of app/services/job_store.py, a
-- priority queue with the sets of active jobs; Tts.JobRunner is app/services/job_runner.py, which
-- takes a job from the queue and runs it; Tts.Synthesis is generate_tts of
-- app/services/synthesis.py, and Tts.Chunking is split_text of app/services/chunking.py.
-- VideoWorker.Platforms is video-worker/platforms.py, the allowlist of URLs, VideoWorker.Errors is
-- video-worker/errors.py, and VideoWorker.Downloads is video-worker/downloader.py: its Trials are the
-- runs of yt-dlp, its Cached the files that are kept for a URL, and its Tiers are `download` itself.
--
-- Examples holds small inputs, what the modelled code does on them, and the theorems at them.
--
-- A function that changes state takes the state and returns the new one; a clock reading is an
-- argument. Times are natural numbers of milliseconds where the code has floating point seconds,
-- so rounding is not modelled. Within one call the clock is read once. A queue object that the
-- store and a stream share is a reference into a heap of queues. The Gemini SDK and the TTS server
-- answer the n-th request that is sent to them, and the state holds that number. Loops are over lists,
-- but for the digits of a number, where as much fuel as the number and one is enough, and the polling
-- of a TTS job, where the milliseconds of its timeout, and two, are enough rounds.
--
-- Not modelled: the event loop and its locks (an operation is atomic, as the code's lock makes it),
-- logging, the HTTP framework, ffmpeg and the models, yt-dlp and the tools for Douyin, the prompts,
-- the circuit breaker, the object storage, the Redis store, and the parts of the workers that no
-- module names.
pub mod Prelude
pub mod Security
pub mod Pipeline
pub mod Tts
pub mod VideoWorker
pub mod Examples
