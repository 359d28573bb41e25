-- ===== src/Examples.antt =====
-- Small inputs, what the modelled code does on them, and the theorems at them.
mod Samples
mod Jobs
mod Streams
mod Scheduler
mod Segments
mod Security
mod Tts
mod Api
mod Downloads
mod Align
mod Texts
mod Gemini
mod Speech
mod Render
