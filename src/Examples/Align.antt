-- ===== src/Examples/Align.antt =====
-- Small inputs for the models of pipeline-worker/align.py, of the aligning stage of
-- pipeline-worker/pipeline.py and of pipeline-worker/chunking.py.
use ai_trans_clips_tts.Prelude.{ℕ, ◌+◌, ◌≡◌, refl, List, [], ◌∷◌}
use ai_trans_clips_tts.Pipeline.Align.{Interval, refine_onsets, speech_map, place_clips}
use ai_trans_clips_tts.Pipeline.Align.Clips.{IsTrack, place_clips-IsTrack}
use ai_trans_clips_tts.Pipeline.Segments.{Segment}
use ai_trans_clips_tts.Pipeline.Chunking.{TranscriptionResult}

abbrev speech : List Interval
speech = (900, 2000) ∷ (5000, 7000) ∷ []

refine_test : refine_onsets 800 (1000 ∷ 4500 ∷ 3000 ∷ []) speech ≡ 900 ∷ 5000 ∷ 3000 ∷ []
unfolding refine_onsets
refine_test = refl

speech_test :
    speech_map (900 ∷ 4000 ∷ []) (1500 ∷ 4500 ∷ []) 9000
    ≡ (0, 900) ∷ (1500, 4000) ∷ (4500, 9000) ∷ []
unfolding speech_map
speech_test = refl

-- At a factor of 1.5: the second clip is pushed by the first, the third is not.
clips_test :
    place_clips 150 0 (0 ∷ 1000 ∷ 4000 ∷ []) (200000 ∷ 100000 ∷ 100000 ∷ [])
    ≡ (0, 200000) ∷ (200000, 100000) ∷ (600000, 100000) ∷ []
unfolding place_clips
clips_test = refl

place_clips-IsTrack_example :
    IsTrack 150 0
      (0 ∷ 1000 ∷ [])
      (200000 ∷ 100000 ∷ [])
      (place_clips 150 0 (0 ∷ 1000 ∷ []) (200000 ∷ 100000 ∷ []))
place_clips-IsTrack_example = place_clips-IsTrack 150 0 (0 ∷ 1000 ∷ []) (200000 ∷ 100000 ∷ [])

-- Chunks named by their length, with one segment each.
abbrev spoken : ℕ → Segment
spoken at = record { start = at; end = at + 500; source_text = 97 ∷ []; target_text = 98 ∷ [] }

abbrev answer : List Segment → TranscriptionResult
answer segs = record {
  detected_language = "en";
  segments = segs;
  input_tokens = 3;
  output_tokens = 4;
}

abbrev transcribe : ℕ → ℕ → TranscriptionResult
transcribe n chunk = answer (spoken 1000 ∷ [])

abbrev probe : ℕ → ℕ
probe chunk = chunk
