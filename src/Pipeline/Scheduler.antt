-- ===== src/Pipeline/Scheduler.antt =====
-- pipeline-worker/scheduler.py: one pass of the dispatcher, the start of a job, and the end of its
-- task. The event loop runs one of these at a time, so a history is a sequence of passes and ends.
pub mod Counts
pub mod Growth
pub mod Bounds
pub mod Order
use ai_trans_clips_tts.Prelude.{
  ℕ, suc, ◌+◌, ◌-◌, min, String, Bool, true, false, not, ◌&&◌, ◌||◌, Option, none, some, List, [],
  ◌∷◌, HasEq, ◌==◌, string_eq, if◌then◌else◌, ltb, leb, length, filter,
}
use ai_trans_clips_tts.Prelude.Int.{ltb_ℤ}
use ai_trans_clips_tts.Prelude.Dict.{Dict, get, put, pop, has}
use ai_trans_clips_tts.Prelude.Sorting.{sort}
use ai_trans_clips_tts.Pipeline.Jobs.{Job, JobStatus, Store, list_jobs}

-- `tasks` maps the id of a job that runs to the user for whom its task was started.
pub record Scheduler : Type 0 where
  pub concurrency : ℕ
  pub max_per_user : ℕ
  pub tasks : Dict String String
  pub running_per_user : Dict String ℕ

unfoldable pub new_scheduler : ℕ → ℕ → Scheduler
new_scheduler concurrency max_per_user = record {
  concurrency = concurrency;
  max_per_user = max_per_user;
  tasks = [];
  running_per_user = [];
}

-- `str(job.user_id or "anon")`
unfoldable pub user_key : Job → String
user_key job = elim job.user_id [ none ↦ "anon" | some u ↦ if u == "" then "anon" else u ]

-- `self._running_per_user.get(user_key, 0)`
abbrev pub running_of : Scheduler → String → ℕ
running_of s user = elim (get s.running_per_user user) [ none ↦ 0 | some n ↦ n ]

-- `_user_limit`
unfoldable pub user_limit : Scheduler → Job → ℕ
user_limit s job = elim job.max_concurrent_jobs [
  | none ↦ s.max_per_user
  | some n ↦ if ltb 0 n then min s.max_per_user n else s.max_per_user
]

-- `_start`
unfoldable pub start : Job → Scheduler → Scheduler
unfolding user_key
start job s = record s {
  running_per_user = put s.running_per_user (user_key job) (running_of s (user_key job) + 1);
  tasks = put s.tasks job.job_id (user_key job);
}

-- The `finally` block of `_run`, which is reached however the job ended.
unfoldable pub release : String → ℕ → Dict String ℕ → Dict String ℕ
release user remaining running =
    if leb remaining 0 then pop running user else put running user remaining

unfoldable pub run_ended : String → String → Scheduler → Scheduler
unfolding release
run_ended job_id user s =
    let current : ℕ = elim (get s.running_per_user user) [ none ↦ 1 | some n ↦ n ] in
    record s {
      tasks = pop s.tasks job_id;
      running_per_user = release user (current - 1) s.running_per_user;
    }

abbrev pub is_full : Scheduler → Bool
is_full s = leb s.concurrency (length s.tasks)

abbrev pub at_limit : Scheduler → Job → Bool
at_limit s job = leb (user_limit s job) (running_of s (user_key job))

-- The rest of the loop's body, behind the test for a free slot.
unfoldable pub offer : Job → Scheduler → Scheduler
unfolding start user_limit
offer job s = if has s.tasks job.job_id then s else if at_limit s job then s else start job s

unfoldable pub dispatch : List Job → Scheduler → Scheduler
unfolding offer
dispatch [] s = s
dispatch (job ∷ rest) s = if is_full s then s else dispatch rest (offer job s)

abbrev pub is_queued : Job → Bool
is_queued job = elim job.status [ JobStatus.queued ↦ true | _ ↦ false ]

-- `key=lambda j: (-(j.priority or 0), j.created_at)`
unfoldable pub precedes : Job → Job → Bool
precedes a b =
    ltb_ℤ b.priority a.priority
    || (not (ltb_ℤ a.priority b.priority) && leb a.created_at b.created_at)

unfoldable pub queue_of : List Job → List Job
unfolding precedes
queue_of candidates = sort precedes (filter is_queued candidates)

-- `_dispatch_once`
unfoldable pub dispatch_once : ℕ → Scheduler → Store → Scheduler × Store
unfolding dispatch queue_of
dispatch_once now s store =
    if is_full s
    then (s, store)
    else (let (candidates, store') = list_jobs now 500 store in
        (dispatch (queue_of candidates) s, store'))
