-- ===== src/Pipeline/Scheduler/Bounds.antt =====
-- Every history of the scheduler (pipeline-worker/scheduler.py), as a sequence of dispatcher passes
-- over whatever job store there is, and of tasks that end.
use ai_trans_clips_tts.Prelude.{
  ℕ, ◌≤◌, String, some, inl, inr, ◌≡◌, ◌∙◌, refl, string_eq, arith, length, Bool-cases,
}
use ai_trans_clips_tts.Prelude.Dict.{get}
use ai_trans_clips_tts.Pipeline.Jobs.{Store, list_jobs}
use ai_trans_clips_tts.Pipeline.Scheduler.{
  Scheduler, new_scheduler, running_of, run_ended, is_full, queue_of, dispatch_once,
}
use ai_trans_clips_tts.Pipeline.Scheduler.Growth.{dispatch-Grows}
use ai_trans_clips_tts.Pipeline.Scheduler.Counts.{
  tally, IsConsistent, new_scheduler-IsConsistent, dispatch-IsConsistent, run_ended-IsConsistent,
}

pub data Step (s : Scheduler) : Scheduler → Type 0 where
  pass : (now : ℕ) (store : Store) → Step s (dispatch_once now s store).0
  ended : (i user : String) → get s.tasks i ≡ some user → Step s (run_ended i user s)

pub data Reach (s : Scheduler) : Scheduler → Type 0 where
  here : Reach s s
  next : {t u : Scheduler} → Reach s t → Step t u → Reach s u

dispatch_once-IsConsistent :
    (now : ℕ) (s : Scheduler) (store : Store)
    → IsConsistent s
    → IsConsistent (dispatch_once now s store).0
unfolding dispatch_once
dispatch_once-IsConsistent now s store v = elim (Bool-cases (is_full s)) [
  | inl full ↦ rw full v
  | inr room ↦ rw room (dispatch-IsConsistent (queue_of (list_jobs now 500 store).0) s v)
]

Step-IsConsistent : {s t : Scheduler} → Step s t → IsConsistent s → IsConsistent t
Step-IsConsistent {s} (pass now store) v = dispatch_once-IsConsistent now s store v
Step-IsConsistent {s} (ended i user running) v = run_ended-IsConsistent i user s running v

pub Reach-IsConsistent : {s t : Scheduler} → Reach s t → IsConsistent s → IsConsistent t
Reach-IsConsistent here v = v
Reach-IsConsistent (next r st) v = Step-IsConsistent st (Reach-IsConsistent r v)

-- The limits that a scheduler was made with stay its limits.
Step-limits :
    {s t : Scheduler}
    → Step s t
    → (t.concurrency ≡ s.concurrency) × (t.max_per_user ≡ s.max_per_user)
Step-limits {s} (pass now store) = elim (Bool-cases (is_full s)) [
  | inl full ↦ unfold dispatch_once in rw full (refl, refl)
  | inr room ↦
      let g = dispatch-Grows (queue_of (list_jobs now 500 store).0) s in
      unfold dispatch_once in rw room (g.same_concurrency, g.same_max)
]
Step-limits (ended i user running) = unfold run_ended in (refl, refl)

Reach-limits :
    {s t : Scheduler}
    → Reach s t
    → (t.concurrency ≡ s.concurrency) × (t.max_per_user ≡ s.max_per_user)
Reach-limits here = (refl, refl)
Reach-limits (next r st) =
    let (c, m) = Step-limits st in let (c', m') = Reach-limits r in (c ∙ c', m ∙ m')

-- However the passes and the ends of jobs follow one another, and whatever the job store holds, the
-- tasks never outnumber the concurrency, no user has more of them than the ceiling per user, and the
-- running count of each user is the number of that user's tasks.
pub Reach-bounds :
    (concurrency max_per_user : ℕ) (s : Scheduler)
    → Reach (new_scheduler concurrency max_per_user) s
    → (length s.tasks ≤ concurrency)
      × ((user : String) → tally s user ≤ max_per_user)
      × ((user : String) → running_of s user ≡ tally s user)
Reach-bounds c m s r =
    let v = Reach-IsConsistent r (new_scheduler-IsConsistent c m) in
    let (same_c, same_m) = Reach-limits r in
    let init_c : (new_scheduler c m).concurrency ≡ c = unfold new_scheduler in refl in
    let init_m : (new_scheduler c m).max_per_user ≡ m = unfold new_scheduler in refl in
    (omega (arith, v.within), λ user. omega (arith, v.fair user), v.counted)
