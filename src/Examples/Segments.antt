-- ===== src/Examples/Segments.antt =====
-- The segments of pipeline-worker/segments.py on small inputs.
use ai_trans_clips_tts.Prelude.{List, [], ◌∷◌, ◌≡◌, refl}
use ai_trans_clips_tts.Prelude.Sorting.{sort}
use ai_trans_clips_tts.Prelude.Text.{codes, is_space, strip}
use ai_trans_clips_tts.Pipeline.Segments.{Segment, usable, normalize_segments}
use ai_trans_clips_tts.Pipeline.Segments.Timeline.{IsTimeline}
use ai_trans_clips_tts.Pipeline.Segments.Merging.{normalize_segments-IsTimeline}
use ai_trans_clips_tts.Pipeline.Segments.Content.{content, normalize_segments-content}

-- A late segment, a blip, an overlong segment that overlaps, and one with no translation.
abbrev reported : List Segment
reported =
    record { start = 9000; end = 30000; source_text = codes "c"; target_text = codes "z" }
    ∷ record { start = 0; end = 200; source_text = codes "a"; target_text = codes "x" }
    ∷ record { start = 200; end = 9500; source_text = codes "b"; target_text = codes "y" }
    ∷ record { start = 300; end = 500; source_text = codes "d"; target_text = codes " " }
    ∷ []

abbrev normalized : List Segment
normalized =
    record { start = 0; end = 8000; source_text = codes "a b"; target_text = codes "x y" }
    ∷ record { start = 9000; end = 17000; source_text = codes "c"; target_text = codes "z" }
    ∷ []

normalize_segments_sample : normalize_segments 400 reported ≡ normalized
unfolding normalize_segments strip is_space sort
normalize_segments_sample = refl

normalize_segments-IsTimeline_example : IsTimeline (normalize_segments 400 reported)
normalize_segments-IsTimeline_example = normalize_segments-IsTimeline 400 reported

normalize_segments-content_example :
    (content (λ s. s.source_text) (normalize_segments 400 reported)
      ≡ content (λ s. s.source_text) (usable reported))
    × (content (λ s. s.target_text) (normalize_segments 400 reported)
        ≡ content (λ s. s.target_text) (usable reported))
normalize_segments-content_example = normalize_segments-content 400 reported
