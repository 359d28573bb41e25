-- ===== src/Pipeline/Gemini.antt =====
-- pipeline-worker/gemini.py: the calls of the Gemini SDK, with the error classes of
-- pipeline-worker/errors.py. The SDK is a parameter: it answers the n-th request that is sent to it,
-- with what `json.loads` reads of the text. Times are integers of milliseconds, which `float` is a
-- parameter for. Log lines and the file of the raw answer are left out.
pub mod Transcribe
pub mod Translate
pub mod Attempts
pub mod Timeline
pub mod Answers
pub mod Reuse
pub use ai_trans_clips_tts.Pipeline.Errors.{
  ErrorClass, quota_exhausted, permanent, transient, Exception, pipeline_error, other_error, Result,
  ok, raised, ◌>>=◌,
}
use ai_trans_clips_tts.Prelude.{
  ℕ, zero, suc, ◌+◌, ◌*◌, Bool, true, false, not, ◌&&◌, ◌||◌, Option, none, some, List, [], ◌∷◌,
  ◌++◌, map, if◌then◌else◌, filter, any, ◌==◌, nat_eq, list_eq,
}
use ai_trans_clips_tts.Prelude.Text.{Text, codes, strip, split, lower, contains, is_blank}

unfoldable pub gemini_failed : Text
gemini_failed = codes "GEMINI_FAILED"

unfoldable pub gemini_not_configured : Text
gemini_not_configured = codes "GEMINI_NOT_CONFIGURED"

-- `_split_keys`
unfoldable pub split_keys : Text → List Text
unfolding split
split_keys value = filter (λ key. not (is_blank key)) (map strip (split 44 value))

abbrev or_else : List Text → List Text → List Text
or_else [] keys = keys
or_else (key ∷ rest) keys = key ∷ rest

-- `key_pool`, over the environment: `os.getenv(name, "")`.
abbrev keys_of_tier : (Text → Text) → Option Text → List Text
keys_of_tier getenv none = []
keys_of_tier getenv (some tier) =
    if tier == codes "free"
    then split_keys (getenv (codes "GEMINI_API_KEYS_FREE"))
    else if tier == codes "paid"
    then split_keys (getenv (codes "GEMINI_API_KEY_PAID"))
    else []

unfoldable pub key_pool : (Text → Text) → Option Text → List Text
unfolding split_keys
key_pool getenv tier =
    or_else (keys_of_tier getenv tier) (split_keys (getenv (codes "GEMINI_API_KEY")))

-- An exception of the SDK: its text, and its attributes `status_code` and `code`.
pub record Failure : Type 0 where
  pub message : Text
  pub status_code : Option ℕ
  pub code : Option ℕ

unfoldable pub quota_markers : List Text
quota_markers =
    codes "quota"
    ∷ codes "resource_exhausted"
    ∷ codes "billing"
    ∷ codes "exceeded your current"
    ∷ []

abbrev transient_markers : List Text
transient_markers =
    codes "503"
    ∷ codes "429"
    ∷ codes "unavailable"
    ∷ codes "high demand"
    ∷ codes "rate limit"
    ∷ codes "timeout"
    ∷ codes "deadline"
    ∷ []

-- `a or b` of two numbers that may be None
abbrev status_of : Option ℕ → Option ℕ → Option ℕ
status_of none b = b
status_of (some zero) b = b
status_of (some (suc n)) b = some (suc n)

abbrev is_one_of : List ℕ → Option ℕ → Bool
is_one_of codes' none = false
is_one_of codes' (some n) = any (λ m. m == n) codes'

-- `_classify_genai_error`
unfoldable pub classify_genai_error : Failure → ErrorClass
unfolding quota_markers contains lower
classify_genai_error exc =
    let msg = lower exc.message in
    let status = status_of exc.status_code exc.code in
    if any (λ marker. contains marker msg) quota_markers
    then quota_exhausted
    else if is_one_of (429 ∷ 500 ∷ 502 ∷ 503 ∷ 504 ∷ []) status
        || any (λ marker. contains marker msg) transient_markers
    then transient
    else if is_one_of (400 ∷ 404 ∷ []) status && not (contains (codes "not found") msg)
    then permanent
    else transient

-- `[DEFAULT_MODEL] + [m for m in FALLBACK_MODELS if m != DEFAULT_MODEL]`
abbrev pub other_models : Text → List Text → List Text
other_models default_model fallback_models = filter (λ m. not (m == default_model)) fallback_models

unfoldable pub models_of : Text → List Text → List Text
models_of default_model fallback_models = default_model ∷ other_models default_model fallback_models

-- `[(model, key) for model in models for key in keys]`
unfoldable pub attempts_of : List Text → List Text → List (Text × Text)
attempts_of [] keys = []
attempts_of (model ∷ models) keys = map (λ key. (model, key)) keys ++ attempts_of models keys

-- A transient error is tried again, if time is left; anything else is the answer.
abbrev or_again {ℓ} : {A : Type ℓ} → Result A → Bool → ℕ → Result A × ℕ → Result A × ℕ
or_again (raised (pipeline_error transient code message)) false n again = again
or_again (raised (pipeline_error transient code message)) true n again =
    (raised (pipeline_error transient code message), n)
or_again (raised (pipeline_error permanent code message)) is_late n again =
    (raised (pipeline_error permanent code message), n)
or_again (raised (pipeline_error quota_exhausted code message)) is_late n again =
    (raised (pipeline_error quota_exhausted code message), n)
or_again (raised (other_error message)) is_late n again = (raised (other_error message), n)
or_again (ok a) is_late n again = (ok a, n)

-- tenacity's loop round one call. `run n` is the n-th call of the SDK, `late n` says that thirty
-- seconds have passed when it ends; `left` attempts may follow this one. The number that is returned
-- is that of the next call.
module _ {ℓ} {A : Type ℓ} (run : ℕ → Result A) (late : ℕ → Bool) where
  unfoldable pub retry : ℕ → ℕ → Result A × ℕ
  retry zero n = (run n, n + 1)
  retry (suc left) n = let again = retry left (n + 1) in or_again (run n) (late n) (n + 1) again

-- The attempts that follow the first, by `stop_after_attempt(3)`.
abbrev pub more_attempts : ℕ
more_attempts = 2

-- The `except` clauses of the loop over the attempts: any other exception is kept as a transient one.
unfoldable pub kept : Exception → Exception
unfolding gemini_failed
kept (pipeline_error cls code message) = pipeline_error cls code message
kept (other_error message) = pipeline_error transient gemini_failed message

-- How the loop over the attempts ends: with an answer, or with `last_exc`.
pub data Outcome {ℓ} (A : Type ℓ) : Type ℓ where
  answered : A → Outcome A
  exhausted : Option Exception → Outcome A

abbrev next_or {ℓ κ} :
    {A : Type ℓ} {S : Type κ}
    → Result A × S
    → (Option Exception → S → Outcome A × S)
    → Outcome A × S
next_or (ok a, s) rest = (answered a, s)
next_or (raised e, s) rest = rest (some (kept e)) s

-- The loop over the models and keys. `call` is its `try` block, on the state that it changes.
module _ {ℓ κ} {A : Type ℓ} {S : Type κ} (call : Text → Text → S → Result A × S) where
  unfoldable pub try_attempts : List (Text × Text) → Option Exception → S → Outcome A × S
  unfolding kept
  try_attempts [] last s = (exhausted last, s)
  try_attempts ((model, key) ∷ attempts) last s = next_or (call model key s) (try_attempts attempts)

-- The end of both functions, by the class of the last exception, with their texts.
unfoldable pub give_up : Text → Text → Option Exception → Exception
unfolding gemini_failed
give_up permanent_text transient_text (some (pipeline_error quota_exhausted code message)) =
    pipeline_error quota_exhausted gemini_failed
      (codes "every gemini model is out of quota: " ++ message)
give_up permanent_text transient_text (some (pipeline_error permanent code message)) =
    pipeline_error permanent gemini_failed (permanent_text ++ message)
give_up permanent_text transient_text (some (pipeline_error transient code message)) =
    pipeline_error transient gemini_failed (transient_text ++ message)
give_up permanent_text transient_text (some (other_error message)) =
    pipeline_error transient gemini_failed (transient_text ++ message)
give_up permanent_text transient_text none =
    pipeline_error transient gemini_failed (transient_text ++ codes "None")
