-- ===== src/Examples/Scheduler.antt =====
-- The scheduler of pipeline-worker/scheduler.py on small inputs.
use ai_trans_clips_tts.Prelude.{
  ◌≤◌, String, true, false, some, List, [], ◌∷◌, ◌++◌, ◌≡◌, refl, ◌==◌, nat_eq, string_eq, length,
  any, All,
}
use ai_trans_clips_tts.Prelude.Dict.{get, put, pop, has, values}
use ai_trans_clips_tts.Prelude.Sorting.{sort}
use ai_trans_clips_tts.Examples.Samples.{job_of}
use ai_trans_clips_tts.Pipeline.Jobs.{Job, Store, empty, list_jobs, new_job}
use ai_trans_clips_tts.Pipeline.Scheduler.{
  Scheduler, new_scheduler, running_of, run_ended, dispatch, queue_of, dispatch_once,
}
use ai_trans_clips_tts.Pipeline.Scheduler.Counts.{tally}
use ai_trans_clips_tts.Pipeline.Scheduler.Bounds.{Step, Reach, Reach-bounds}
use ai_trans_clips_tts.Pipeline.Scheduler.Order.{IsPlaced, dispatch_priority}

-- Two jobs of one user and an urgent one of another.
abbrev waiting : List Job
waiting = job_of "a" "u" 10 1 ∷ job_of "b" "u" 10 2 ∷ job_of "c" "v" 50 3 ∷ []

abbrev store : Store
store = record empty {
  jobs = ("a", job_of "a" "u" 10 1) ∷ ("b", job_of "b" "u" 10 2) ∷ ("c", job_of "c" "v" 50 3) ∷ [];
}

program : Unit {0}
unfolding new_job new_scheduler queue_of dispatch dispatch_once run_ended list_jobs get put pop
    values sort
program = tt

queue_order :
    queue_of waiting ≡ job_of "c" "v" 50 3 ∷ job_of "a" "u" 10 1 ∷ job_of "b" "u" 10 2 ∷ []
unfolding program
queue_order = refl

-- Three slots, one for each user: the second job of the first user waits.
abbrev after_pass : Scheduler
after_pass = (dispatch_once 10 (new_scheduler 3 1) store).0

pass_result : after_pass.tasks ≡ ("c", "v") ∷ ("a", "u") ∷ []
unfolding program
pass_result = refl

runs_a : get after_pass.tasks "a" ≡ some "u"
unfolding program
runs_a = refl

Reach-bounds_example :
    (length (run_ended "a" "u" after_pass).tasks ≤ 3)
    × ((user : String) → tally (run_ended "a" "u" after_pass) user ≤ 1)
    × ((user : String)
        → running_of (run_ended "a" "u" after_pass) user
          ≡ tally (run_ended "a" "u" after_pass) user)
Reach-bounds_example =
    Reach-bounds 3 1 (run_ended "a" "u" after_pass)
      (Reach.next (Reach.next Reach.here (Step.pass 10 store)) (Step.ended "a" "u" runs_a))

abbrev urgent : Job
urgent = job_of "c" "v" 50 3

abbrev job_a : Job
job_a = job_of "a" "u" 10 1

first_of_its_id : any (λ (j : Job). j.job_id == job_a.job_id) (urgent ∷ []) ≡ false
unfolding new_job
first_of_its_id = refl

not_yet : has (new_scheduler 3 1).tasks job_a.job_id ≡ false
unfolding program
not_yet = refl

then_started :
    has (dispatch ((urgent ∷ []) ++ job_a ∷ []) (new_scheduler 3 1)).tasks job_a.job_id ≡ true
unfolding program
then_started = refl

dispatch_priority_example :
    All (IsPlaced (dispatch ((urgent ∷ []) ++ job_a ∷ []) (new_scheduler 3 1))) (urgent ∷ [])
dispatch_priority_example =
    dispatch_priority (urgent ∷ []) [] job_a (new_scheduler 3 1) first_of_its_id not_yet
      then_started
