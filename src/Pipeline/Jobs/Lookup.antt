-- ===== src/Pipeline/Jobs/Lookup.antt =====
-- The search by idempotency key in pipeline-worker/jobs.py.
use mathlib.Core.List.{Mem, mem-cons_self, mem-cons_of_mem}
use ai_trans_clips_tts.Prelude.{
  String, Bool, true, ◌&&◌, Option, none, some, List, [], ◌∷◌, ◌≡◌, ◌≢◌, ◌⊎◌, subst, inl, inr,
  arith, string_eq, option_eq, Bool-cases, Option-cases, All, eq_of_==,
}
use ai_trans_clips_tts.Prelude.Dict.{values}
use ai_trans_clips_tts.Pipeline.Jobs.{
  Job, Store, is_live, matches_key, find_in, find_by_idempotency_key, failed, canceled,
}

-- What the search looks for: the key and the user of a job that has not failed or been canceled.
pub record Matches (user_id : Option String) (key : String) (job : Job) : Type 0 where
  pub same_key : job.idempotency_key ≡ some key
  pub same_user : job.user_id ≡ user_id
  pub not_failed : job.status ≢ failed
  pub not_canceled : job.status ≢ canceled

module _ (user_id : Option String) (key : String) where
  is_hit : Job → Bool
  unfolding is_live
  is_hit job = matches_key user_id key job && is_live job.status

  is_hit-Matches : (job : Job) → is_hit job ≡ true → Matches user_id key job
  unfolding is_hit
  is_hit-Matches job h = record {
    same_key = eq_of_== job.idempotency_key (some key) (ground arith);
    same_user = eq_of_== job.user_id user_id (ground arith);
    not_failed = λ e. ground arith;
    not_canceled = λ e. ground arith;
  }

  Matches-is_hit : (job : Job) → Matches user_id key job → is_hit job ≡ true
  unfolding is_hit
  Matches-is_hit job m = ground (
    arith,
    (option_eq {A = String}).eqb_iff job.idempotency_key (some key),
    (option_eq {A = String}).eqb_iff job.user_id user_id,
    m.same_key,
    m.same_user,
    m.not_failed,
    m.not_canceled,
  )

  find_in-All :
      (jobs : List Job) → find_in user_id key jobs ≡ none → All (λ j. ¬ Matches user_id key j) jobs
  unfolding find_in is_hit
  find_in-All [] h = tt
  find_in-All (job ∷ rest) h = elim (Bool-cases (is_hit job)) [
    | inl hit ↦ absurd (ground arith)
    | inr miss ↦
        (λ m. absurd (ground (arith, Matches-is_hit job m)), find_in-All rest (ground arith))
  ]

  find_in-Mem :
      (jobs : List Job) (job : Job)
      → find_in user_id key jobs ≡ some job
      → Mem job jobs × Matches user_id key job
  unfolding find_in is_hit
  find_in-Mem [] job h = absurd (ground arith)
  find_in-Mem (x ∷ rest) job h = elim (Bool-cases (is_hit x)) [
    | inl hit ↦
        let same : x ≡ job = ground arith in
        subst (λ y. Mem y (x ∷ rest) × Matches user_id key y) same
          (mem-cons_self, is_hit-Matches x hit)
    | inr miss ↦
        let later = find_in-Mem rest job (ground arith) in (mem-cons_of_mem x later.0, later.1)
  ]

-- Either the search finds a job of the store with the key and the user that has neither failed nor
-- been canceled, or it finds none, and every job of the store differs in one of these.
pub find_by_idempotency_key_exact :
    (user_id : Option String) (key : String) (s : Store)
    → ((job : Job) × (find_by_idempotency_key user_id key s ≡ some job)
        × Mem job (values s.jobs)
        × Matches user_id key job)
      ⊎ (find_by_idempotency_key user_id key s ≡ none)
        × All (λ j. ¬ Matches user_id key j) (values s.jobs)
unfolding find_by_idempotency_key
find_by_idempotency_key_exact user_id key s =
    elim (Option-cases (find_in user_id key (values s.jobs))) [
      | inl none_found ↦ inr (none_found, find_in-All user_id key (values s.jobs) none_found)
      | inr (job, found) ↦
          let (listed, matches) = find_in-Mem user_id key (values s.jobs) job found in
          inl (job, found, listed, matches)
    ]
