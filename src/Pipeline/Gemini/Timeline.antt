-- ===== src/Pipeline/Gemini/Timeline.antt =====
-- What translate_text of pipeline-worker/gemini.py leaves of the segments.
use ai_trans_clips_tts.Prelude.{
  ℕ, ◌+◌, ◌*◌, ◌≤◌, ◌≡◌, refl, ap, ◌∙◌, Option, none, List, [], ◌∷◌, map, length, arith,
}
use ai_trans_clips_tts.Prelude.Text.{Text, strip}
use ai_trans_clips_tts.Pipeline.Segments.{Segment}
use ai_trans_clips_tts.Pipeline.Gemini.{
  Result, ok, raised, attempts_of, try_attempts, key_pool, models_of, Outcome, answered, exhausted,
  more_attempts,
}
use ai_trans_clips_tts.Pipeline.Gemini.Attempts.{
  try_attempts-keeps, try_attempts_cost, retry_bound, length-attempts_of,
}
use ai_trans_clips_tts.Pipeline.Gemini.Translate.{
  Reply, empty, unreadable, no_list, lines, Line, missing, line, no_text, Sdk, write_target,
  fill_rest, write_lines, use_reply, attempt_text, translate_text, call_text_once, read_text,
  conclude, use_keys,
}

-- A segment without its translation
abbrev pub Source : Type 0
Source = ℕ × ℕ × Text

abbrev pub source_of : Segment → Source
source_of s = (s.start, s.end, s.source_text)

abbrev pub sources : List Segment → List Source
sources segments = map source_of segments

fill_rest-sources : (segments : List Segment) → sources (fill_rest segments) ≡ sources segments
unfolding fill_rest
fill_rest-sources [] = refl
fill_rest-sources (seg ∷ segments) = ground (arith, fill_rest-sources segments)

write_target-source : (seg : Segment) (t : Text) → source_of (write_target seg t) ≡ source_of seg
unfolding write_target
write_target-source seg [] = refl
write_target-source seg (c ∷ t) = refl

write_lines-sources :
    (ts : List Line) (segments : List Segment)
    → sources (write_lines ts segments).1 ≡ sources segments
unfolding write_lines
write_lines-sources [] segments = fill_rest-sources segments
write_lines-sources (t ∷ ts) [] = refl
write_lines-sources (missing ∷ ts) (seg ∷ segments) =
    ap (λ (l : List Source). source_of seg ∷ l) (write_lines-sources ts segments)
write_lines-sources (line t ∷ ts) (seg ∷ segments) =
    ground (arith, write_target-source seg (strip t), write_lines-sources ts segments)
write_lines-sources (no_text message ∷ ts) (seg ∷ segments) = refl

use_reply-sources :
    (r : Result Reply) (segments : List Segment)
    → sources (use_reply r segments).1 ≡ sources segments
unfolding use_reply
use_reply-sources (raised e) segments = refl
use_reply-sources (ok empty) segments = refl
use_reply-sources (ok (unreadable message)) segments = refl
use_reply-sources (ok no_list) segments = refl
use_reply-sources (ok (lines ts)) segments = write_lines-sources ts segments

call_text_once_bound :
    (sdk : Sdk) (model key : Text) (n : ℕ) → (call_text_once sdk model key n).1 ≤ n + 3
unfolding call_text_once
call_text_once_bound sdk model [] n = omega arith
call_text_once_bound sdk model (c ∷ key) n =
    retry_bound (λ i. read_text model (sdk.generate i model (c ∷ key))) sdk.late more_attempts n

conclude-state : (o : Outcome (Unit {0}) × (ℕ × List Segment)) → (conclude o).1 ≡ o.1
conclude-state (answered done, s) = refl
conclude-state (exhausted last, s) = refl

attempt_text-sources :
    (sdk : Sdk) (segments : List Segment) (model key : Text) (s : ℕ × List Segment)
    → sources s.1 ≡ sources segments
    → sources (attempt_text sdk model key s).1.1 ≡ sources segments
unfolding attempt_text
attempt_text-sources sdk segments model key (n, now) h =
    use_reply-sources (call_text_once sdk model key n).0 now ∙ h

attempt_text_cost :
    (sdk : Sdk) (model key : Text) (s : ℕ × List Segment)
    → (attempt_text sdk model key s).1.0 ≤ s.0 + 3
unfolding attempt_text
attempt_text_cost sdk model key (n, now) = call_text_once_bound sdk model key n

-- What holds of the calls and segments after the attempts.
abbrev pub Keeps : ℕ → List Segment → List Text → List Text → ℕ × List Segment → Type 0
Keeps n segments models keys (n', segments') =
    (sources segments' ≡ sources segments) × (n' ≤ n + 3 * (length models * length keys))

use_keys-Keeps :
    (sdk : Sdk) (models keys : List Text) (n : ℕ) (segments : List Segment)
    → Keeps n segments models keys (use_keys sdk models keys n segments).1
use_keys-Keeps sdk models [] n segments = (refl, omega arith)
use_keys-Keeps sdk models (key ∷ keys) n segments =
    let attempts = attempts_of models (key ∷ keys) in
    let o = try_attempts (attempt_text sdk) attempts none (n, segments) in
    rw (conclude-state o) (
      try_attempts-keeps (attempt_text sdk) (λ s. sources s.1 ≡ sources segments)
          (attempt_text-sources sdk segments) attempts none (n, segments) refl,
      rw (← length-attempts_of models (key ∷ keys)) (
          try_attempts_cost (attempt_text sdk) (λ s. s.0) 3 (attempt_text_cost sdk) attempts none
            (n, segments)),
    )

-- However translate_text ends, the segments are as many as before, in the same order and with the same
-- times and sources, and it has sent at most three requests for each pair of a model and a key.
pub translate_text-Keeps :
    (sdk : Sdk) (getenv : Text → Text) (default_model : Text) (fallback_models : List Text)
    (tier : Option Text) (n : ℕ) (segments : List Segment)
    → Keeps n segments
        (models_of default_model fallback_models)
        (key_pool getenv tier)
        (translate_text sdk getenv default_model fallback_models tier n segments).1
unfolding translate_text
translate_text-Keeps sdk getenv default_model fallback_models tier n [] = (refl, omega arith)
translate_text-Keeps sdk getenv default_model fallback_models tier n (seg ∷ segments) =
    use_keys-Keeps sdk (models_of default_model fallback_models) (key_pool getenv tier) n
      (seg ∷ segments)
