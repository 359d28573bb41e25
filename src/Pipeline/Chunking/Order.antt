-- ===== src/Pipeline/Chunking/Order.antt =====
-- The merged transcript of pipeline-worker/chunking.py: the chunks follow each other on one clock.
use ai_trans_clips_tts.Prelude.{ℕ, ◌≤◌, List, All}
use ai_trans_clips_tts.Prelude.Sorting.{IsSorted}
use ai_trans_clips_tts.Pipeline.Segments.{Segment, starts_before}

-- The segments start in order and within the length of their chunk.
abbrev pub FitsIn : ℕ → List Segment → Type 0
FitsIn len segs = IsSorted starts_before segs × All (λ s. s.start ≤ len) segs
