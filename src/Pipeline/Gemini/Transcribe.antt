-- ===== src/Pipeline/Gemini/Transcribe.antt =====
-- `_call_once` and `transcribe_and_translate` of pipeline-worker/gemini.py, for one prompt.
use ai_trans_clips_tts.Prelude.{
  ℕ, String, Bool, ◌&&◌, ◌||◌, Option, none, some, List, [], ◌∷◌, ◌++◌, if◌then◌else◌, leb, length,
  list_eq, nat_eq,
}
use ai_trans_clips_tts.Prelude.Int.{ℤ, pos, negsuc, add_ℤ, scale_ℤ, leb_ℤ}
use ai_trans_clips_tts.Prelude.Text.{Text, codes, strip, split, parse_int, is_blank}
use ai_trans_clips_tts.Pipeline.Segments.{Segment, normalize_segments}
use ai_trans_clips_tts.Pipeline.Chunking.{TranscriptionResult}
use ai_trans_clips_tts.Pipeline.Cache.{Limits, Cache, get_cache, put_cache}
use ai_trans_clips_tts.Pipeline.Gemini.{
  transient, permanent, pipeline_error, other_error, Result, ok, raised, ◌>>=◌, gemini_failed,
  gemini_not_configured, key_pool, Failure, classify_genai_error, models_of, attempts_of, retry,
  more_attempts, Outcome, answered, exhausted, try_attempts, give_up,
}

-- A time of the answer, as a number or as a text.
pub data Stamp : Type 0 where
  number : ℤ → Stamp
  text : Text → Stamp

-- An entry of the list "s": no list or too short; one whose texts are no texts, so that `strip`
-- raises; or its first four fields.
pub data Row : Type 0 where
  short : Row
  untyped : Text → Row
  row : Stamp → Stamp → Text → Text → Row

-- What is read of an answer: no JSON, with the decoder's text; something whose reading raises
-- another exception; or "lang" and "s".
pub data Reply : Type 0 where
  not_json unreadable : Text → Reply
  reply : Option String → List Row → Reply

pub data Answer : Type 0 where
  failed : Failure → Answer
  answer : Reply → Answer

-- The SDK and the libraries: the n-th request and its answer, by model and key; whether the
-- thirty seconds are over after it; the time then; `float`; and pydantic's text on a bad field.
pub record Sdk : Type 0 where
  pub generate : ℕ → Text → Text → Answer
  pub late : ℕ → Bool
  pub clock : ℕ → ℕ
  pub float : Text → Option ℤ
  pub schema_error : Text

abbrev add_times : ℕ → Option ℤ → Option ℤ → Option ℤ
add_times n none s = none
add_times n (some m) none = none
add_times n (some m) (some s) = some (add_ℤ (scale_ℤ n m) s)

abbrev of_parts : (Text → Option ℤ) → List Text → Option ℤ
of_parts float (m ∷ s ∷ []) = add_times 60000 (parse_int m) (float s)
of_parts float (h ∷ m ∷ s ∷ []) =
    add_times 3600000 (parse_int h) (add_times 60000 (parse_int m) (float s))
of_parts float parts = none

-- `_to_sec`, with None for a ValueError
unfoldable pub to_sec : (Text → Option ℤ) → Stamp → Option ℤ
unfolding split
to_sec float (number t) = some t
to_sec float (text ts) = of_parts float (split 58 ts)

-- The end of the loop's body: a row without time is passed over, and the schema refuses a negative
-- start.
abbrev add_row :
    Text → Option ℤ → Option ℤ → Text → Text → Result (List Segment) → Result (List Segment)
add_row schema_error none end original translation rest = rest
add_row schema_error (some start) none original translation rest = rest
add_row schema_error (some (negsuc n)) (some end) original translation rest =
    if leb_ℤ end (negsuc n) then rest else raised (other_error schema_error)
add_row schema_error (some (pos start)) (some (negsuc end)) original translation rest = rest
add_row schema_error (some (pos start)) (some (pos end)) original translation rest =
    if leb end start
    then rest
    else rest >>= λ segments. ok (
        record { start = start; end = end; source_text = original; target_text = translation }
        ∷ segments)

module _ (sdk : Sdk) where
  -- The loop over `segs_raw`.
  unfoldable pub read_rows : List Row → Result (List Segment)
  unfolding to_sec strip
  read_rows [] = ok []
  read_rows (short ∷ rows) = read_rows rows
  read_rows (untyped message ∷ rows) = raised (other_error message)
  read_rows (row start end original translation ∷ rows) =
      let rest = read_rows rows in
      if is_blank (strip original) || is_blank (strip translation)
      then rest
      else add_row sdk.schema_error (to_sec sdk.float start) (to_sec sdk.float end) (strip original)
          (strip translation) rest

  abbrev or_unknown : Option String → String
  or_unknown none = "unknown"
  or_unknown (some lang) = lang

  -- The body of the `with attempt:` block, on an answer.
  unfoldable pub read_answer : Text → Answer → Result (String × List Segment)
  unfolding read_rows classify_genai_error gemini_failed
  read_answer model (failed exc) =
      raised (pipeline_error (classify_genai_error exc) gemini_failed exc.message)
  read_answer model (answer (not_json message)) = raised (
      pipeline_error transient gemini_failed
        (codes "invalid json from " ++ model ++ codes ": " ++ message))
  read_answer model (answer (unreadable message)) = raised (other_error message)
  read_answer model (answer (reply lang rows)) =
      read_rows rows >>= λ segments. ok (or_unknown lang, segments)

  -- `_call_once(_client(api_key), ...)`: no call is made without a key.
  unfoldable pub call_once : Text → Text → ℕ → Result (String × List Segment) × ℕ
  unfolding retry read_answer gemini_not_configured
  call_once model [] n = (
    raised
        (pipeline_error permanent gemini_not_configured (codes "no Gemini API key is configured")),
    n,
  )
  call_once model (c ∷ key) n =
      retry (λ i. read_answer model (sdk.generate i model (c ∷ key))) sdk.late more_attempts n

-- The default of `normalize_segments`
abbrev pub min_duration : ℕ
min_duration = 400

-- The settings of the module, and what it imports: the environment, the cache, and how a result is
-- written to it and read back.
pub record Settings : Type 0 where
  pub getenv : Text → Text
  pub default_model : Text
  pub fallback_models : List Text
  pub limits : Limits
  pub cache_key : List ℕ → Text → Text → Text → Text
  pub load : List ℕ → Option TranscriptionResult
  pub dump : TranscriptionResult → List ℕ

abbrev pub without_tokens : Option TranscriptionResult → Option TranscriptionResult
without_tokens none = none
without_tokens (some res) = some (record res { input_tokens = 0; output_tokens = 0 })

abbrev pub use_cached :
    (List ℕ → Option TranscriptionResult) → Option (List ℕ) → Option TranscriptionResult
use_cached load none = none
use_cached load (some []) = none
use_cached load (some (b ∷ content)) = without_tokens (load (b ∷ content))

abbrev pub first_hit :
    Option TranscriptionResult × Cache
    → (Cache → Option TranscriptionResult × Cache)
    → Option TranscriptionResult × Cache
first_hit (some res, c) rest = (some res, c)
first_hit (none, c) rest = rest c

module _ (sdk : Sdk) (settings : Settings) (audio : List ℕ)
    (source_language target_language : Text) where
  abbrev key_for : Text → Text
  key_for = settings.cache_key audio source_language target_language

  -- The look-up before any call, model by model.
  unfoldable pub from_cache : ℕ → List Text → Cache → Option TranscriptionResult × Cache
  unfolding get_cache
  from_cache now [] c = (none, c)
  from_cache now (model ∷ models) c =
      let (cached, c') = get_cache settings.limits now (key_for model) c in
      first_hit (use_cached settings.load cached, c') (from_cache now models)

  -- The `try` block of the loop after its call: the segments are normalised, and the schema wants a
  -- language of two to ten characters.
  unfoldable pub finish :
      Text → Result (String × List Segment) × ℕ → Cache → Result TranscriptionResult × (ℕ × Cache)
  unfolding normalize_segments put_cache
  finish model (raised e, n) c = (raised e, (n, c))
  finish model (ok (lang, segments), n) c =
      let result : TranscriptionResult = record {
        detected_language = lang;
        segments = normalize_segments min_duration segments;
        input_tokens = 0;
        output_tokens = 0;
      } in
      if leb 2 (length (codes lang)) && leb (length (codes lang)) 10
      then (
        ok result,
        (n, put_cache settings.limits (sdk.clock n) (key_for model) (settings.dump result) c),
      )
      else (raised (other_error sdk.schema_error), (n, c))

  unfoldable pub attempt_call : Text → Text → ℕ × Cache → Result TranscriptionResult × (ℕ × Cache)
  unfolding call_once finish
  attempt_call model key (n, c) = finish model (call_once sdk model key n) c

abbrev pub conclude :
    Outcome TranscriptionResult × (ℕ × Cache) → Result TranscriptionResult × (ℕ × Cache)
conclude (answered result, s) = (ok result, s)
conclude (exhausted last, s) =
    (raised (give_up (codes "gemini failed: ") (codes "all gemini models failed: ") last), s)

-- `transcribe_and_translate`; the audio is the bytes of the file at `audio_path`, if it exists.
module _ (sdk : Sdk) (settings : Settings) (audio_path source_language target_language : Text) where
  abbrev pub use_keys :
      List ℕ → List Text → List Text → ℕ → Cache → Result TranscriptionResult × (ℕ × Cache)
  use_keys audio models [] n c = (
    raised
        (pipeline_error permanent gemini_not_configured (codes "GEMINI_API_KEY is not configured")),
    (n, c),
  )
  use_keys audio models (key ∷ keys) n c = conclude (
      try_attempts (attempt_call sdk settings audio source_language target_language)
        (attempts_of models (key ∷ keys)) none (n, c))

  abbrev pub after_cache :
      List ℕ
      → List Text
      → List Text
      → ℕ
      → Option TranscriptionResult × Cache
      → Result TranscriptionResult × (ℕ × Cache)
  after_cache audio models keys n (some res, c) = (ok res, (n, c))
  after_cache audio models keys n (none, c) = use_keys audio models keys n c

  unfoldable pub transcribe_and_translate :
      Option (List ℕ) → Option Text → ℕ → Cache → Result TranscriptionResult × (ℕ × Cache)
  unfolding from_cache attempt_call try_attempts attempts_of give_up key_pool models_of
      gemini_failed gemini_not_configured
  transcribe_and_translate none tier n c = (
    raised (pipeline_error permanent gemini_failed (codes "audio not found: " ++ audio_path)),
    (n, c),
  )
  transcribe_and_translate (some []) tier n c =
      (raised (pipeline_error permanent gemini_failed (codes "empty audio file")), (n, c))
  transcribe_and_translate (some (b ∷ audio)) tier n c =
      let models = models_of settings.default_model settings.fallback_models in
      after_cache (b ∷ audio) models (key_pool settings.getenv tier) n
        (from_cache sdk settings (b ∷ audio) source_language target_language (sdk.clock n) models c)
