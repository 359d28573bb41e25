-- ===== src/Pipeline/Render/Geometry.antt =====
-- The blurred band of pipeline-worker/mux.py stays within the frame.
use ai_trans_clips_tts.Prelude.{ℕ, ◌+◌, ◌≤◌}
use ai_trans_clips_tts.Pipeline.Render.{Box}

-- A box within a frame of `vw` by `vh`.
abbrev pub IsInside : ℕ → ℕ → Box → Type 0
IsInside vw vh b = (b.x + b.w ≤ vw) × (b.y + b.h ≤ vh)
