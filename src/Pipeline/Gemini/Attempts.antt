-- ===== src/Pipeline/Gemini/Attempts.antt =====
-- The loops of pipeline-worker/gemini.py over the tries of one call and over the models and keys.
use ai_trans_clips_tts.Prelude.{
  ℕ, zero, suc, ◌+◌, ◌*◌, ◌≤◌, ◌≡◌, refl, ap, Bool, true, false, Option, none, some, List, [], ◌∷◌,
  ◌++◌, map, length, length-append, arith,
}
use ai_trans_clips_tts.Prelude.Text.{Text}
use ai_trans_clips_tts.Pipeline.Gemini.{
  ErrorClass, quota_exhausted, permanent, transient, Exception, pipeline_error, other_error, Result,
  ok, raised, attempts_of, or_again, retry, kept, Outcome, answered, exhausted, next_or,
  try_attempts, give_up,
}

or_again-le {ℓ} :
    {A : Type ℓ} (r : Result A) (is_late : Bool) (n m : ℕ) (again : Result A × ℕ)
    → n ≤ m
    → again.1 ≤ m
    → (or_again r is_late n again).1 ≤ m
or_again-le (raised (pipeline_error transient code message)) false n m again h k = k
or_again-le (raised (pipeline_error transient code message)) true n m again h k = h
or_again-le (raised (pipeline_error permanent code message)) is_late n m again h k = h
or_again-le (raised (pipeline_error quota_exhausted code message)) is_late n m again h k = h
or_again-le (raised (other_error message)) is_late n m again h k = h
or_again-le (ok a) is_late n m again h k = h

module _ {ℓ} {A : Type ℓ} (run : ℕ → Result A) (late : ℕ → Bool) where
  -- No more calls than attempts.
  pub retry_bound : (left n : ℕ) → (retry run late left n).1 ≤ n + suc left
  unfolding retry
  retry_bound zero n = omega arith
  retry_bound (suc left) n =
      or_again-le (run n) (late n) (n + 1) (n + suc (suc left)) (retry run late left (n + 1))
        (omega arith) (omega (arith, retry_bound left (n + 1)))

pub length-attempts_of :
    (models keys : List Text) → length (attempts_of models keys) ≡ length models * length keys
unfolding attempts_of
length-attempts_of [] keys = omega arith
length-attempts_of (model ∷ models) keys = grind (
  arith,
  length-append (map (λ (key : Text). (model, key)) keys) (attempts_of models keys),
  length-map (λ (key : Text). (model, key)) keys,
  length-attempts_of models keys,
)
  where
    length-map : (f : Text → Text × Text) (ks : List Text) → length (map f ks) ≡ length ks
    length-map f [] = refl
    length-map f (k ∷ ks) = ap suc (length-map f ks)

module _ {ℓ κ} {A : Type ℓ} {S : Type κ} (call : Text → Text → S → Result A × S) where
  -- The attempts all raise, one after the other, on the state that the one before has left.
  pub data AllFail : List (Text × Text) → S → S → Type (ℓ ⊔ κ) where
    no_more : {s s' : S} → s ≡ s' → AllFail [] s s'
    fails :
        {model key : Text} {attempts : List (Text × Text)} {s t s' : S} (e : Exception)
        → call model key s ≡ (raised e, t)
        → AllFail attempts t s'
        → AllFail ((model, key) ∷ attempts) s s'

  -- The first attempt that does not raise decides, or the last one when all raise.
  pub data Decided (attempts : List (Text × Text)) (s : S) : Outcome A → S → Type (ℓ ⊔ κ) where
    by_answer :
        (before after : List (Text × Text)) (model key : Text) {t s' : S} {a : A}
        → attempts ≡ before ++ (model, key) ∷ after
        → AllFail before s t
        → call model key t ≡ (ok a, s')
        → Decided attempts s (answered a) s'
    by_failures :
        (before : List (Text × Text)) (model key : Text) {t s' : S} (e : Exception)
        → attempts ≡ before ++ (model, key) ∷ []
        → AllFail before s t
        → call model key t ≡ (raised e, s')
        → Decided attempts s (exhausted (some (kept e))) s'

module _ {ℓ κ} {A : Type ℓ} {S : Type κ} (call : Text → Text → S → Result A × S) where
  Decided-later :
      (model key : Text) (attempts : List (Text × Text)) (s t s' : S) (e : Exception)
      (o : Outcome A)
      → call model key s ≡ (raised e, t)
      → Decided call attempts t o s'
      → Decided call ((model, key) ∷ attempts) s o s'
  Decided-later model key attempts s t s' e o failed (by_answer before after m k split all answer) =
      by_answer ((model, key) ∷ before) after m k
        (ap (λ (l : List (Text × Text)). (model, key) ∷ l) split) (fails e failed all) answer
  Decided-later model key attempts s t s' e o failed (by_failures before m k e' split all last) =
      by_failures ((model, key) ∷ before) m k e'
        (ap (λ (l : List (Text × Text)). (model, key) ∷ l) split) (fails e failed all) last

  first_decides :
      (model key : Text) (attempts : List (Text × Text)) (s : S) (r : Result A × S)
      → call model key s ≡ r
      → Decided call
          ((model, key) ∷ attempts)
          s
          (next_or r (try_attempts call attempts)).0
          (next_or r (try_attempts call attempts)).1
  unfolding try_attempts
  first_decides model key attempts s (ok a, t) h =
      by_answer [] attempts model key refl (no_more refl) h
  first_decides model key [] s (raised e, t) h = by_failures [] model key e refl (no_more refl) h
  first_decides model key ((m, k) ∷ attempts) s (raised e, t) h =
      Decided-later model key ((m, k) ∷ attempts) s t
        (try_attempts call ((m, k) ∷ attempts) (some (kept e)) t).1 e
        (try_attempts call ((m, k) ∷ attempts) (some (kept e)) t).0 h
        (first_decides m k attempts t (call m k t) refl)

  pub try_attempts-Decided :
      (model key : Text) (attempts : List (Text × Text)) (last : Option Exception) (s : S)
      → Decided call
          ((model, key) ∷ attempts)
          s
          (try_attempts call ((model, key) ∷ attempts) last s).0
          (try_attempts call ((model, key) ∷ attempts) last s).1
  unfolding try_attempts
  try_attempts-Decided model key attempts last s =
      first_decides model key attempts s (call model key s) refl

module _ {ℓ κ μ} {A : Type ℓ} {S : Type κ} (P : S → Type μ) where
  next_or-keeps :
      (r : Result A × S) (rest : Option Exception → S → Outcome A × S)
      → ((last : Option Exception) → P (rest last r.1).1)
      → P r.1
      → P (next_or r rest).1
  next_or-keeps (ok a, s) rest later now = now
  next_or-keeps (raised e, s) rest later now = later (some (kept e))

module _ {ℓ κ} {A : Type ℓ} {S : Type κ} (call : Text → Text → S → Result A × S) where
  pub try_attempts-keeps {μ} :
      (P : S → Type μ)
      → ((model key : Text) (s : S) → P s → P (call model key s).1)
      → (attempts : List (Text × Text)) (last : Option Exception) (s : S) → P s
      → P (try_attempts call attempts last s).1
  unfolding try_attempts
  try_attempts-keeps P keep [] last s h = h
  try_attempts-keeps P keep ((model, key) ∷ attempts) last s h =
      next_or-keeps P (call model key s) (try_attempts call attempts)
        (λ last'.
          try_attempts-keeps P keep attempts last' (call model key s).1 (keep model key s h))
        (keep model key s h)

  -- What the attempts use up together.
  pub try_attempts_cost :
      (cost : S → ℕ) (w : ℕ)
      → ((model key : Text) (s : S) → cost (call model key s).1 ≤ cost s + w)
      → (attempts : List (Text × Text)) (last : Option Exception) (s : S)
      → cost (try_attempts call attempts last s).1 ≤ cost s + w * length attempts
  unfolding try_attempts
  try_attempts_cost cost w keep [] last s = omega arith
  try_attempts_cost cost w keep ((model, key) ∷ attempts) last s =
      next_or-keeps (λ t. cost t ≤ cost s + w * suc (length attempts)) (call model key s)
        (try_attempts call attempts)
        (λ last'. grind (
          arith,
          keep model key s,
          try_attempts_cost cost w keep attempts last' (call model key s).1,
        ))
        (grind (arith, keep model key s))

abbrev pub class_of : Exception → Option ErrorClass
class_of (pipeline_error cls code message) = some cls
class_of (other_error message) = none

-- A failure keeps the class of the last exception, and an unknown one counts as transient.
pub give_up-class :
    (p t : Text) (e : Exception) → class_of (give_up p t (some (kept e))) ≡ class_of (kept e)
unfolding give_up kept
give_up-class p t (pipeline_error quota_exhausted code message) = refl
give_up-class p t (pipeline_error permanent code message) = refl
give_up-class p t (pipeline_error transient code message) = refl
give_up-class p t (other_error message) = refl
