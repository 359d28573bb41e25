-- ===== src/Pipeline/Errors.antt =====
-- pipeline-worker/errors.py: the exceptions of the pipeline worker, and calls that may raise them.
use ai_trans_clips_tts.Prelude.Text.{Text}

-- PipelineError: its class (QuotaExhaustedError is a PermanentError), its code and its message.
pub data ErrorClass : Type 0 where
  quota_exhausted permanent transient : ErrorClass

-- An exception: one of the worker's own, or any other with its text.
pub data Exception : Type 0 where
  pipeline_error : ErrorClass → Text → Text → Exception
  other_error : Text → Exception

pub data Result {ℓ} (A : Type ℓ) : Type ℓ where
  ok : A → Result A
  raised : Exception → Result A

infixl 5 ◌>>=◌
abbrev pub ◌>>=◌ {ℓ κ} : {A : Type ℓ} {B : Type κ} → Result A → (A → Result B) → Result B
ok a >>= f = f a
raised e >>= f = raised e
