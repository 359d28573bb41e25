-- ===== src/Pipeline/Gemini/Translate.antt =====
-- `_call_text_once` and `translate_text` of pipeline-worker/gemini.py, for one prompt. The segments are
-- changed in place, so an attempt that raises leaves what it has written.
use ai_trans_clips_tts.Prelude.{ℕ, Bool, Option, none, List, [], ◌∷◌, ◌++◌, if◌then◌else◌}
use ai_trans_clips_tts.Prelude.Text.{Text, codes, strip, is_blank}
use ai_trans_clips_tts.Pipeline.Segments.{Segment}
use ai_trans_clips_tts.Pipeline.Gemini.{
  transient, permanent, pipeline_error, other_error, Result, ok, raised, gemini_failed,
  gemini_not_configured, key_pool, Failure, classify_genai_error, models_of, attempts_of, retry,
  more_attempts, Outcome, answered, exhausted, try_attempts, give_up,
}

-- An element of the list of translations: one that counts as false, a text, or another, whose
-- `strip` raises.
pub data Line : Type 0 where
  missing : Line
  line : Text → Line
  no_text : Text → Line

-- What is read of a text answer: nothing but white space; something that `json.loads` or `get` raises
-- on; no list under "t"; or the list.
pub data Reply : Type 0 where
  empty : Reply
  unreadable : Text → Reply
  no_list : Reply
  lines : List Line → Reply

pub data Answer : Type 0 where
  failed : Failure → Answer
  answer : Reply → Answer

pub record Sdk : Type 0 where
  pub generate : ℕ → Text → Text → Answer
  pub late : ℕ → Bool

-- The body of the `with attempt:` block of `_call_text_once`.
unfoldable pub read_text : Text → Answer → Result Reply
unfolding classify_genai_error gemini_failed
read_text model (failed exc) =
    raised (pipeline_error (classify_genai_error exc) gemini_failed exc.message)
read_text model (answer empty) =
    raised (pipeline_error transient gemini_failed (codes "empty response from " ++ model))
read_text model (answer (unreadable message)) = ok (unreadable message)
read_text model (answer no_list) = ok no_list
read_text model (answer (lines ts)) = ok (lines ts)

-- `_call_text_once(_client(api_key), ...)`
unfoldable pub call_text_once : Sdk → Text → Text → ℕ → Result Reply × ℕ
unfolding retry read_text gemini_not_configured
call_text_once sdk model [] n = (
  raised (pipeline_error permanent gemini_not_configured (codes "no Gemini API key is configured")),
  n,
)
call_text_once sdk model (c ∷ key) n =
    retry (λ i. read_text model (sdk.generate i model (c ∷ key))) sdk.late more_attempts n

-- `if t: segments[i].target_text = t`
unfoldable pub write_target : Segment → Text → Segment
write_target seg [] = seg
write_target seg (c ∷ t) = record seg { target_text = c ∷ t }

-- The second loop: a segment past the translations that has no text takes its source.
unfoldable pub fill_rest : List Segment → List Segment
unfolding strip
fill_rest [] = []
fill_rest (seg ∷ segments) =
    (if is_blank (strip seg.target_text)
      then record seg { target_text = strip seg.source_text }
      else seg)
    ∷ fill_rest segments

abbrev behind : Segment → Result (Unit {0}) × List Segment → Result (Unit {0}) × List Segment
behind seg (result, segments) = (result, seg ∷ segments)

-- Both loops, over the translations and the segments together.
unfoldable pub write_lines : List Line → List Segment → Result (Unit {0}) × List Segment
unfolding write_target fill_rest
write_lines [] segments = (ok tt, fill_rest segments)
write_lines (t ∷ ts) [] = (ok tt, [])
write_lines (missing ∷ ts) (seg ∷ segments) = behind seg (write_lines ts segments)
write_lines (line t ∷ ts) (seg ∷ segments) =
    behind (write_target seg (strip t)) (write_lines ts segments)
write_lines (no_text message ∷ ts) (seg ∷ segments) = (raised (other_error message), seg ∷ segments)

-- The rest of the `try` block, on the answer.
unfoldable pub use_reply : Result Reply → List Segment → Result (Unit {0}) × List Segment
unfolding write_lines gemini_failed
use_reply (raised e) segments = (raised e, segments)
use_reply (ok empty) segments = (raised (other_error []), segments)
use_reply (ok (unreadable message)) segments = (raised (other_error message), segments)
use_reply (ok no_list) segments = (
  raised (pipeline_error transient gemini_failed (codes "translate: no list in response")),
  segments,
)
use_reply (ok (lines ts)) segments = write_lines ts segments

abbrev with_calls : ℕ → Result (Unit {0}) × List Segment → Result (Unit {0}) × (ℕ × List Segment)
with_calls n (result, segments) = (result, (n, segments))

unfoldable pub attempt_text :
    Sdk → Text → Text → ℕ × List Segment → Result (Unit {0}) × (ℕ × List Segment)
unfolding call_text_once use_reply
attempt_text sdk model key (n, segments) =
    let (result, n') = call_text_once sdk model key n in with_calls n' (use_reply result segments)

abbrev pub conclude :
    Outcome (Unit {0}) × (ℕ × List Segment) → Result (Unit {0}) × (ℕ × List Segment)
conclude (answered done, s) = (ok tt, s)
conclude (exhausted last, s) = (
  raised (
      give_up (codes "gemini translation failed: ") (codes "all gemini translation models failed: ")
        last),
  s,
)

abbrev pub use_keys :
    Sdk → List Text → List Text → ℕ → List Segment → Result (Unit {0}) × (ℕ × List Segment)
use_keys sdk models [] n segments = (
  raised
      (pipeline_error permanent gemini_not_configured (codes "GEMINI_API_KEY is not configured")),
  (n, segments),
)
use_keys sdk models (key ∷ keys) n segments =
    conclude (try_attempts (attempt_text sdk) (attempts_of models (key ∷ keys)) none (n, segments))

-- `translate_text`, with the environment and the module's models
unfoldable pub translate_text :
    Sdk
    → (Text → Text)
    → Text
    → List Text
    → Option Text
    → ℕ
    → List Segment
    → Result (Unit {0}) × (ℕ × List Segment)
unfolding attempt_text try_attempts attempts_of give_up key_pool models_of gemini_not_configured
translate_text sdk getenv default_model fallback_models tier n [] = (ok tt, (n, []))
translate_text sdk getenv default_model fallback_models tier n (seg ∷ segments) =
    use_keys sdk (models_of default_model fallback_models) (key_pool getenv tier) n (seg ∷ segments)
