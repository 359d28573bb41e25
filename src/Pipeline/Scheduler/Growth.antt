-- ===== src/Pipeline/Scheduler/Growth.antt =====
-- Within a dispatcher pass of pipeline-worker/scheduler.py tasks are only started.
use ai_trans_clips_tts.Prelude.{
  ◌≤◌, String, true, false, List, [], ◌∷◌, ◌≡◌, refl, inl, inr, arith, string_eq, Bool-cases,
  Option-cases,
}
use ai_trans_clips_tts.Prelude.Dict.{get, has, get-put}
use ai_trans_clips_tts.Pipeline.Jobs.{Job}
use ai_trans_clips_tts.Pipeline.Scheduler.{
  Scheduler, user_key, running_of, user_limit, start, is_full, at_limit, offer, dispatch,
}
use ai_trans_clips_tts.Pipeline.Scheduler.Counts.{
  running_of-start, offer_running, offer_limited, offer_starts,
}

-- Within a pass the books only grow.
pub record Grows (s t : Scheduler) : Type 0 where
  pub same_concurrency : t.concurrency ≡ s.concurrency
  pub same_max : t.max_per_user ≡ s.max_per_user
  pub tasks : (i : String) → has s.tasks i ≡ true → has t.tasks i ≡ true
  pub users : (user : String) → running_of s user ≤ running_of t user

pub Grows-refl : (s : Scheduler) → Grows s s
Grows-refl s = record {
  same_concurrency = refl;
  same_max = refl;
  tasks = λ i h. h;
  users = λ u. omega arith;
}

pub Grows-trans : {s t u : Scheduler} → Grows s t → Grows t u → Grows s u
Grows-trans g h = record {
  same_concurrency = ground arith;
  same_max = ground arith;
  tasks = λ i p. h.tasks i (g.tasks i p);
  users = λ v. omega (arith, g.users v, h.users v);
}

start-Grows : (job : Job) (s : Scheduler) → Grows s (start job s)
start-Grows job s = record {
  same_concurrency = unfold start in refl;
  same_max = unfold start in refl;
  tasks = λ i h. unfold start in ground (arith, get-put s.tasks job.job_id i (user_key job), h);
  users = λ u. rw (running_of-start job s u) (omega arith);
}

pub offer-Grows : (job : Job) (s : Scheduler) → Grows s (offer job s)
offer-Grows job s = elim (Option-cases (get s.tasks job.job_id)) [
  | inr (u, running) ↦ rw (offer_running job s (rw (running, has))) (Grows-refl s)
  | inl absent ↦ elim (Bool-cases (at_limit s job)) [
    | inl full ↦ rw (offer_limited job s full) (Grows-refl s)
    | inr below ↦ rw (offer_starts job s absent below) (start-Grows job s)
  ]
]

pub dispatch_full : (jobs : List Job) (s : Scheduler) → is_full s ≡ true → dispatch jobs s ≡ s
unfolding dispatch
dispatch_full [] s full = refl
dispatch_full (job ∷ rest) s full = rw full

pub dispatch_room :
    (job : Job) (rest : List Job) (s : Scheduler)
    → is_full s ≡ false
    → dispatch (job ∷ rest) s ≡ dispatch rest (offer job s)
unfolding dispatch
dispatch_room job rest s room = rw room

pub dispatch-Grows : (jobs : List Job) (s : Scheduler) → Grows s (dispatch jobs s)
dispatch-Grows [] s = unfold dispatch in Grows-refl s
dispatch-Grows (job ∷ rest) s = elim (Bool-cases (is_full s)) [
  | inl full ↦ rw (dispatch_full (job ∷ rest) s full) (Grows-refl s)
  | inr room ↦
      rw (dispatch_room job rest s room)
        (Grows-trans (offer-Grows job s) (dispatch-Grows rest (offer job s)))
]

pub user_limit_same :
    (job : Job) (s t : Scheduler)
    → t.max_per_user ≡ s.max_per_user
    → user_limit t job ≡ user_limit s job
unfolding user_limit
user_limit_same job s t e = ground arith
