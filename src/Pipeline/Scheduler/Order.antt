-- ===== src/Pipeline/Scheduler/Order.antt =====
-- Whom a dispatcher pass of pipeline-worker/scheduler.py serves: priority, fairness, no idle slot.
use ai_trans_clips_tts.Prelude.{
  String, true, false, List, [], ◌∷◌, ◌++◌, ◌≡◌, ◌⊎◌, refl, sym, subst, ap, inl, inr, arith, ◌==◌,
  string_eq, filter, any, All, All-weaken, filter-All, Bool-cases, Option-cases, ==_refl,
}
use ai_trans_clips_tts.Prelude.Dict.{get, has, get-put}
use ai_trans_clips_tts.Prelude.Sorting.{IsSorted, sort-IsSorted, sort-All}
use ai_trans_clips_tts.Pipeline.Jobs.{Job}
use ai_trans_clips_tts.Pipeline.Scheduler.{
  Scheduler, user_key, start, is_full, at_limit, offer, dispatch, is_queued, precedes, queue_of,
}
use mathlib.Core.Bool.{false≢true}
use mathlib.Core.Path.{◌∙◌}
use ai_trans_clips_tts.Pipeline.Scheduler.Growth.{
  Grows, dispatch_full, dispatch_room, dispatch-Grows, user_limit_same,
}
use ai_trans_clips_tts.Pipeline.Scheduler.Counts.{offer_running, offer_limited, offer_starts}

precedes_total : (a b : Job) → precedes a b ≡ false → precedes b a ≡ true
unfolding precedes
precedes_total a b h = ground arith

precedes_trans : (a b c : Job) → precedes a b ≡ true → precedes b c ≡ true → precedes a c ≡ true
unfolding precedes
precedes_trans a b c h k = ground arith

-- The queue is in the documented order: a higher priority first, and first come first served
-- within a priority; and only queued jobs stand in it.
pub queue_of-IsSorted :
    (candidates : List Job)
    → IsSorted precedes (queue_of candidates)
      × All (λ job. is_queued job ≡ true) (queue_of candidates)
unfolding queue_of
queue_of-IsSorted candidates = (
  sort-IsSorted precedes precedes_total precedes_trans (filter is_queued candidates),
  sort-All precedes (λ job. is_queued job ≡ true) (filter is_queued candidates)
      (filter-All is_queued candidates),
)

-- A job needs no slot in a state: it runs already, or its user may have no more.
abbrev pub IsPlaced : Scheduler → Job → Type 0
IsPlaced s job = (has s.tasks job.job_id ≡ true) ⊎ (at_limit s job ≡ true)

IsPlaced-Grows : {s t : Scheduler} (job : Job) → Grows s t → IsPlaced s job → IsPlaced t job
IsPlaced-Grows job g (inl running) = inl (g.tasks job.job_id running)
IsPlaced-Grows {s} {t} job g (inr limited) =
    inr (ground (arith, g.users (user_key job), user_limit_same job s t g.same_max, limited))

offer-IsPlaced : (job : Job) (s : Scheduler) → IsPlaced (offer job s) job
offer-IsPlaced job s = elim (Option-cases (get s.tasks job.job_id)) [
  | inr (u, running) ↦ rw (offer_running job s (rw (running, has))) (inl (rw (running, has)))
  | inl absent ↦ elim (Bool-cases (at_limit s job)) [
    | inl full ↦ rw (offer_limited job s full) (inr full)
    | inr below ↦ rw (offer_starts job s absent below) (
        inl (
          unfold start in
          ground (arith, get-put s.tasks job.job_id job.job_id (user_key job), ==_refl job.job_id)))
  ]
]

-- When the loop ends with a free slot, every job of the queue has been served or is held back.
pub dispatch-IsPlaced :
    (jobs : List Job) (s : Scheduler)
    → is_full (dispatch jobs s) ≡ false
    → All (IsPlaced (dispatch jobs s)) jobs
dispatch-IsPlaced [] s room = tt
dispatch-IsPlaced (job ∷ rest) s room = elim (Bool-cases (is_full s)) [
  | inl full ↦ absurd (
      false≢true
        (sym room ∙ ap (λ (t : Scheduler). is_full t) (dispatch_full (job ∷ rest) s full) ∙ full))
  | inr free ↦
      let e = dispatch_room job rest s free in
      subst (λ (t : Scheduler). All (IsPlaced t) (job ∷ rest)) (sym e)
        (
          IsPlaced-Grows job (dispatch-Grows rest (offer job s)) (offer-IsPlaced job s),
          dispatch-IsPlaced rest (offer job s) (rw e at room),
        )
]

dispatch-append :
    (xs ys : List Job) (s : Scheduler) → dispatch (xs ++ ys) s ≡ dispatch ys (dispatch xs s)
dispatch-append [] ys s = unfold dispatch in refl
dispatch-append (x ∷ xs) ys s = elim (Bool-cases (is_full s)) [
  | inl full ↦
      rw
        (
          dispatch_full (x ∷ xs ++ ys) s full,
          dispatch_full (x ∷ xs) s full,
          dispatch_full ys s full,
        )
        refl
  | inr room ↦
      rw (dispatch_room x (xs ++ ys) s room, dispatch_room x xs s room)
        (dispatch-append xs ys (offer x s))
]

-- A job is only started when it is offered.
has-dispatch :
    (jobs : List Job) (s : Scheduler) (i : String)
    → any (λ j. j.job_id == i) jobs ≡ false
    → has (dispatch jobs s).tasks i ≡ has s.tasks i
has-dispatch [] s i h = unfold dispatch in refl
has-dispatch (job ∷ rest) s i h = elim (Bool-cases (is_full s)) [
  | inl full ↦ rw (dispatch_full (job ∷ rest) s full) refl
  | inr room ↦ rw (dispatch_room job rest s room) (
      has-dispatch rest (offer job s) i (ground arith)
      ∙ unfold offer in ground (arith, get-put s.tasks job.job_id i (user_key job)))
]

-- A job that a pass starts has overtaken nobody: when it was not running before the pass and its id
-- does not stand earlier in the queue, every job before it runs, or its user is at the limit.
pub dispatch_priority :
    (before after : List Job) (job : Job) (s : Scheduler)
    → any (λ j. j.job_id == job.job_id) before ≡ false
    → has s.tasks job.job_id ≡ false
    → has (dispatch (before ++ job ∷ after) s).tasks job.job_id ≡ true
    → All (IsPlaced (dispatch (before ++ job ∷ after) s)) before
dispatch_priority before after job s first idle started =
    let t = dispatch before s in
    let e = dispatch-append before (job ∷ after) s in
    elim (Bool-cases (is_full t)) [
      | inl full ↦ absurd (
          false≢true (
            sym idle
            ∙ sym (has-dispatch before s job.job_id first)
            ∙ ap (λ (u : Scheduler). has u.tasks job.job_id)
                (sym (e ∙ dispatch_full (job ∷ after) t full))
            ∙ started))
      | inr room ↦ rw e (
          All-weaken (IsPlaced t) (IsPlaced (dispatch (job ∷ after) t)) before
            (λ b. IsPlaced-Grows b (dispatch-Grows (job ∷ after) t))
            (dispatch-IsPlaced before s room))
    ]
