-- ===== src/Pipeline/Gemini/Answers.antt =====
-- Which answer transcribe_and_translate of pipeline-worker/gemini.py gives, and at what cost.
use ai_trans_clips_tts.Prelude.{
  ℕ, ◌+◌, ◌*◌, ◌≤◌, ◌≡◌, refl, Option, none, some, List, [], ◌∷◌, ◌++◌, length, arith, map, String,
}
use ai_trans_clips_tts.Prelude.Text.{Text, codes}
use ai_trans_clips_tts.Pipeline.Segments.{Segment}
use ai_trans_clips_tts.Pipeline.Chunking.{TranscriptionResult}
use ai_trans_clips_tts.Pipeline.Cache.{Cache}
use ai_trans_clips_tts.Pipeline.Gemini.{
  Exception, Result, ok, raised, Outcome, answered, exhausted, kept, attempts_of, models_of,
  other_models, key_pool, try_attempts, give_up, more_attempts,
}
use ai_trans_clips_tts.Pipeline.Gemini.Attempts.{
  AllFail, Decided, by_answer, by_failures, try_attempts-Decided, try_attempts_cost, retry_bound,
  length-attempts_of, class_of, give_up-class,
}
use ai_trans_clips_tts.Pipeline.Gemini.Transcribe.{
  Sdk, Settings, read_answer, call_once, from_cache, finish, attempt_call, conclude, use_keys,
  transcribe_and_translate, after_cache,
}

-- The answer is that of the first attempt that does not raise, or an exception with the class of the
-- last one.
pub data IsAnswered (call : Text → Text → ℕ × Cache → Result TranscriptionResult × (ℕ × Cache))
    (attempts : List (Text × Text)) (s : ℕ × Cache) (r : Result TranscriptionResult × (ℕ × Cache))
    : Type 0 where
  first_answer :
      (before after : List (Text × Text)) (model key : Text) (t s' : ℕ × Cache)
      (result : TranscriptionResult)
      → attempts ≡ before ++ (model, key) ∷ after
      → AllFail call before s t
      → call model key t ≡ (ok result, s')
      → r ≡ (ok result, s')
      → IsAnswered call attempts s r
  all_failed :
      (before : List (Text × Text)) (model key : Text) (t s' : ℕ × Cache) (e e' : Exception)
      → attempts ≡ before ++ (model, key) ∷ []
      → AllFail call before s t
      → call model key t ≡ (raised e, s')
      → r ≡ (raised e', s')
      → class_of e' ≡ class_of (kept e)
      → IsAnswered call attempts s r

answer_of_Decided :
    (call : Text → Text → ℕ × Cache → Result TranscriptionResult × (ℕ × Cache))
    (attempts : List (Text × Text)) (s s' : ℕ × Cache) (o : Outcome TranscriptionResult)
    → Decided call attempts s o s'
    → IsAnswered call attempts s (conclude (o, s'))
answer_of_Decided call attempts s s' o
      (by_answer before after model key {t} {a = a} split all answer) =
    first_answer before after model key t s' a split all answer refl
answer_of_Decided call attempts s s' o (by_failures before model key {t} e split all last) =
    all_failed before model key t s' e
      (give_up (codes "gemini failed: ") (codes "all gemini models failed: ") (some (kept e))) split
      all last refl (give_up-class (codes "gemini failed: ") (codes "all gemini models failed: ") e)

module _ (sdk : Sdk) (settings : Settings) (audio_path source_language target_language : Text) where
  abbrev call : List ℕ → Text → Text → ℕ × Cache → Result TranscriptionResult × (ℕ × Cache)
  call audio = attempt_call sdk settings audio source_language target_language

  use_keys-IsAnswered :
      (audio : List ℕ) (model : Text) (models : List Text) (key : Text) (keys : List Text) (n : ℕ)
      (c : Cache)
      → IsAnswered
          (call audio)
          (attempts_of (model ∷ models) (key ∷ keys))
          (n, c)
          (use_keys sdk settings audio_path source_language target_language audio
            (model ∷ models)
            (key ∷ keys)
            n
            c)
  unfolding attempts_of
  use_keys-IsAnswered audio model models key keys n c =
      let rest = map (λ (k : Text). (model, k)) keys ++ attempts_of models (key ∷ keys) in
      let o = try_attempts (call audio) ((model, key) ∷ rest) none (n, c) in
      answer_of_Decided (call audio) ((model, key) ∷ rest) (n, c) o.1 o.0
        (try_attempts-Decided (call audio) model key rest none (n, c))

  finish_calls :
      (audio : List ℕ) (model : Text) (r : Result (String × List Segment) × ℕ) (c : Cache)
      → (finish sdk settings audio source_language target_language model r c).1.0 ≡ r.1
  unfolding finish
  finish_calls audio model (raised e, n) c = refl
  finish_calls audio model (ok (lang, segments), n) c = ground arith

  call_once_bound : (model key : Text) (n : ℕ) → (call_once sdk model key n).1 ≤ n + 3
  unfolding call_once
  call_once_bound model [] n = omega arith
  call_once_bound model (b ∷ key) n =
      retry_bound (λ i. read_answer sdk model (sdk.generate i model (b ∷ key))) sdk.late
        more_attempts n

  call_cost :
      (audio : List ℕ) (model key : Text) (s : ℕ × Cache) → (call audio model key s).1.0 ≤ s.0 + 3
  unfolding attempt_call
  call_cost audio model key (n, c) =
      omega
        (arith, finish_calls audio model (call_once sdk model key n) c, call_once_bound model key n)

  conclude-state : (o : Outcome TranscriptionResult × (ℕ × Cache)) → (conclude o).1 ≡ o.1
  conclude-state (answered result, s) = refl
  conclude-state (exhausted last, s) = refl

  after_cache_calls :
      (audio : List ℕ) (models keys : List Text) (n : ℕ)
      (found : Option TranscriptionResult × Cache)
      → (after_cache sdk settings audio_path source_language target_language audio models keys n
          found).1.0
        ≤ n + 3 * (length models * length keys)
  after_cache_calls audio models keys n (some res, c) = omega arith
  after_cache_calls audio models [] n (none, c) = omega arith
  after_cache_calls audio models (key ∷ keys) n (none, c) =
      let o = try_attempts (call audio) (attempts_of models (key ∷ keys)) none (n, c) in
      rw (conclude-state o) (
        rw (← length-attempts_of models (key ∷ keys)) (
          try_attempts_cost (call audio) (λ s. s.0) 3 (call_cost audio)
            (attempts_of models (key ∷ keys)) none (n, c)))

module _ (sdk : Sdk) (settings : Settings) (audio_path source_language target_language : Text) where
  abbrev models : List Text
  models = models_of settings.default_model settings.fallback_models

  -- Of an audio that is not in the cache, with at least one key: the pairs of a model and a key are
  -- tried in order, all keys of the first model first. The answer is that of the first pair whose
  -- attempt does not raise. When all raise, so does the function, with the class of the last
  -- exception, where an unexpected one counts as transient.
  pub transcribe_and_translate-IsAnswered :
      (b : ℕ) (audio : List ℕ) (tier : Option Text) (n : ℕ) (c c' : Cache) (key : Text)
      (keys : List Text)
      → key_pool settings.getenv tier ≡ key ∷ keys
      → from_cache sdk settings (b ∷ audio) source_language target_language (sdk.clock n) models c
        ≡ (none, c')
      → IsAnswered
          (attempt_call sdk settings (b ∷ audio) source_language target_language)
          (attempts_of models (key ∷ keys))
          (n, c')
          (transcribe_and_translate sdk settings audio_path source_language target_language
            (some (b ∷ audio))
            tier
            n
            c)
  unfolding transcribe_and_translate models_of
  transcribe_and_translate-IsAnswered b audio tier n c c' key keys pool missed =
      rw (missed, pool)
        (use_keys-IsAnswered sdk settings audio_path source_language target_language (b ∷ audio)
          settings.default_model (other_models settings.default_model settings.fallback_models) key
          keys n c')

  -- A transcription sends at most three requests for each pair of a model and a key, and ends.
  pub transcribe_and_translate_bound :
      (audio : Option (List ℕ)) (tier : Option Text) (n : ℕ) (c : Cache)
      → (transcribe_and_translate sdk settings audio_path source_language target_language audio tier
          n c).1.0
        ≤ n + 3 * (length models * length (key_pool settings.getenv tier))
  unfolding transcribe_and_translate
  transcribe_and_translate_bound none tier n c = omega arith
  transcribe_and_translate_bound (some []) tier n c = omega arith
  transcribe_and_translate_bound (some (b ∷ audio)) tier n c =
      after_cache_calls sdk settings audio_path source_language target_language (b ∷ audio) models
        (key_pool settings.getenv tier) n
        (from_cache sdk settings (b ∷ audio) source_language target_language (sdk.clock n) models c)
