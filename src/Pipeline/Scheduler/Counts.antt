-- ===== src/Pipeline/Scheduler/Counts.antt =====
-- The scheduler's books (pipeline-worker/scheduler.py): `running_per_user` against the tasks.
use ai_trans_clips_tts.Prelude.{
  ℕ, ◌+◌, ◌-◌, ◌≤◌, ◌<◌, String, true, false, none, some, List, [], ◌∷◌, ◌≡◌, refl, ap, inl, inr,
  arith, ◌==◌, string_eq, if◌then◌else◌, length, count, Option-cases, Bool-cases,
}
use ai_trans_clips_tts.Prelude.Dict.{
  get, has, values, get-put, get-pop, IsDict, put-IsDict, pop-IsDict, length-put_new, count-put_new,
  length-pop, count-pop,
}
use ai_trans_clips_tts.Pipeline.Jobs.{Job}
use ai_trans_clips_tts.Pipeline.Scheduler.{
  Scheduler, new_scheduler, user_key, running_of, user_limit, start, run_ended, is_full, at_limit,
  offer, dispatch,
}

-- How many tasks run for a user.
abbrev pub tally : Scheduler → String → ℕ
tally s user = count (λ u. u == user) (values s.tasks)

pub record IsConsistent (s : Scheduler) : Type 0 where
  pub unique : IsDict s.tasks
  pub counted : (user : String) → running_of s user ≡ tally s user
  pub positive : (user : String) (n : ℕ) → get s.running_per_user user ≡ some n → 0 < n
  pub within : length s.tasks ≤ s.concurrency
  pub fair : (user : String) → tally s user ≤ s.max_per_user

pub new_scheduler-IsConsistent : (c m : ℕ) → IsConsistent (new_scheduler c m)
unfolding new_scheduler get values
new_scheduler-IsConsistent c m = record {
  unique = tt;
  counted = λ user. refl;
  positive = λ user n h. cc;
  within = omega arith;
  fair = λ user. omega arith;
}

user_limit-le : (s : Scheduler) (job : Job) → user_limit s job ≤ s.max_per_user
unfolding user_limit
user_limit-le s job = ground arith

pub running_of-start :
    (job : Job) (s : Scheduler) (user : String)
    → running_of (start job s) user ≡ running_of s user + (if user_key job == user then 1 else 0)
unfolding start
running_of-start job s user = ground (
  arith,
  get-put s.running_per_user (user_key job) user (running_of s (user_key job) + 1),
  string_eq.eqb_iff (user_key job) user,
)

tally-start :
    (job : Job) (s : Scheduler) (user : String)
    → get s.tasks job.job_id ≡ none
    → tally (start job s) user ≡ tally s user + (if user_key job == user then 1 else 0)
unfolding start
tally-start job s user absent =
    count-put_new (λ u. u == user) s.tasks job.job_id (user_key job) absent

module _ (job : Job) (s : Scheduler) where
  start-IsConsistent :
      get s.tasks job.job_id ≡ none
      → is_full s ≡ false
      → at_limit s job ≡ false
      → IsConsistent s
      → IsConsistent (start job s)
  start-IsConsistent absent room below v = record {
    unique = unfold start in put-IsDict s.tasks job.job_id (user_key job) v.unique;
    counted =
        λ user. rw (running_of-start job s user, tally-start job s user absent, v.counted user);
    positive = λ user n found.
        unfold start in
        ground (
          arith,
          get-put s.running_per_user (user_key job) user (running_of s (user_key job) + 1),
          found,
          v.positive user n,
        );
    within =
        unfold start in ground (arith, length-put_new s.tasks job.job_id (user_key job) absent);
    fair = λ user. rw (tally-start job s user absent) (
        unfold start in
        ground (
          arith,
          v.fair user,
          v.counted user,
          user_limit-le s job,
          string_eq.eqb_iff (user_key job) user,
          λ (e : user_key job ≡ user). ap (λ (u : String). running_of s u) e,
        ));
  }

  pub offer_running : has s.tasks job.job_id ≡ true → offer job s ≡ s
  unfolding offer
  offer_running h = ground arith

  pub offer_limited : at_limit s job ≡ true → offer job s ≡ s
  unfolding offer
  offer_limited h = ground arith

  pub offer_starts :
      get s.tasks job.job_id ≡ none → at_limit s job ≡ false → offer job s ≡ start job s
  unfolding offer
  offer_starts absent h = ground arith

  offer-IsConsistent : is_full s ≡ false → IsConsistent s → IsConsistent (offer job s)
  offer-IsConsistent room v = elim (Option-cases (get s.tasks job.job_id)) [
    | inr (u, running) ↦ rw (offer_running (rw (running, has))) v
    | inl absent ↦ elim (Bool-cases (at_limit s job)) [
      | inl full ↦ rw (offer_limited full) v
      | inr below ↦ rw (offer_starts absent below) (start-IsConsistent absent room below v)
    ]
  ]

pub dispatch-IsConsistent :
    (jobs : List Job) (s : Scheduler) → IsConsistent s → IsConsistent (dispatch jobs s)
unfolding dispatch
dispatch-IsConsistent [] s v = v
dispatch-IsConsistent (job ∷ rest) s v = elim (Bool-cases (is_full s)) [
  | inl full ↦ rw full v
  | inr room ↦ rw room (dispatch-IsConsistent rest (offer job s) (offer-IsConsistent job s room v))
]

module _ (i user : String) (s : Scheduler) (running : get s.tasks i ≡ some user)
    (v : IsConsistent s) where
  tally-run_ended :
      (u : String) → tally (run_ended i user s) u + (if user == u then 1 else 0) ≡ tally s u
  unfolding run_ended
  tally-run_ended u = count-pop (λ w. w == u) s.tasks i user v.unique running

  running_of-run_ended :
      (u : String)
      → running_of (run_ended i user s) u
        ≡ (if user == u then running_of s u - 1 else running_of s u)
  unfolding run_ended
  running_of-run_ended u = ground (
    arith,
    get-pop s.running_per_user user u,
    string_eq.eqb_iff user u,
    get-put s.running_per_user user u (running_of s user - 1),
    λ (e : user ≡ u). ap (λ (w : String). get s.running_per_user w) e,
  )

  pub run_ended-IsConsistent : IsConsistent (run_ended i user s)
  run_ended-IsConsistent = record {
    unique = unfold run_ended in pop-IsDict s.tasks i v.unique;
    counted = λ u.
        rw (running_of-run_ended u)
          (ground (arith, tally-run_ended u, v.counted u, string_eq.eqb_iff user u));
    positive = λ u n found.
        unfold run_ended in
        ground (
          arith,
          get-pop s.running_per_user user u,
          string_eq.eqb_iff user u,
          found,
          v.positive u n,
          v.positive user (running_of s user),
          get-put s.running_per_user user u (running_of s user - 1),
        );
    within =
        unfold run_ended in ground (arith, length-pop s.tasks i user v.unique running, v.within);
    fair = λ u. unfold run_ended in ground (arith, tally-run_ended u, v.fair u);
  }
