-- ===== src/Examples/Jobs.antt =====
-- The job store of pipeline-worker/jobs.py on small inputs.
use mathlib.Core.List.{Mem}
use ai_trans_clips_tts.Prelude.{
  ℕ, ◌+◌, none, some, List, [], ◌∷◌, ◌≡◌, refl, ◌⊎◌, nat_eq, string_eq, option_eq, All,
}
use ai_trans_clips_tts.Prelude.Dict.{get, put, pop, values}
use ai_trans_clips_tts.Prelude.Sorting.{sort}
use ai_trans_clips_tts.Prelude.Text.{truncate}
use ai_trans_clips_tts.Examples.Samples.{input}
use ai_trans_clips_tts.Pipeline.Jobs.{
  Job, JobStatus, Field, Store, empty, job_ttl, create_job, get_job, update_job, list_jobs,
  find_by_idempotency_key, choose_id, setattrs,
}
use ai_trans_clips_tts.Pipeline.Jobs.Updates.{
  Call, IsValid, IsValid-empty, run_calls, run_calls-IsValid,
}
use ai_trans_clips_tts.Pipeline.Jobs.Lookup.{Matches, find_by_idempotency_key_exact}

-- One job, created at time 5, and a second at time 9.
abbrev one : Store
one = (create_job 5 "x" input empty).1

abbrev two : Store
two = (create_job 9 "y" (record input { job_id = none }) one).1

abbrev job_a : Job
job_a = (create_job 5 "x" input empty).0

program : Unit {0}
unfolding create_job get_job update_job list_jobs find_by_idempotency_key choose_id truncate
    setattrs get put pop values sort
program = tt

one_found : get one.jobs "a" ≡ some job_a
unfolding program
one_found = refl

listing_order :
    (list_jobs 10 500 two).0
    ≡ (create_job 9 "y" (record input { job_id = none }) one).0 ∷ job_a ∷ []
unfolding program
listing_order = refl

expired_listing :
    (list_jobs (6 + job_ttl) 500 two).0
    ≡ (create_job 9 "y" (record input { job_id = none }) one).0 ∷ []
unfolding program
expired_listing = refl

abbrev with_file : Store
with_file = (update_job 50 "a" (Field.set_file (some "/x") (some "x") none ∷ []) one).1

abbrev job_with_file : Job
job_with_file = record job_a { file_path = some "/x"; file_name = some "x"; updated_at = 50 }

with_file_found : get with_file.jobs "a" ≡ some job_with_file
unfolding program
with_file_found = refl

abbrev start_fields : List Field
start_fields = Field.set_status JobStatus.processing ∷ Field.set_progress 5 ∷ []

abbrev history : List (ℕ × Call)
history =
    (5, Call.create "x" input)
    ∷ (6, Call.listen "a")
    ∷ (7, Call.update "a" start_fields)
    ∷ (9000000, Call.list 10)
    ∷ []

run_calls-IsValid_example : IsValid (run_calls history empty)
run_calls-IsValid_example = run_calls-IsValid history empty IsValid-empty

find_by_idempotency_key_exact_example :
    ((job : Job) × (find_by_idempotency_key (some "u") "k" two ≡ some job)
      × Mem job (values two.jobs)
      × Matches (some "u") "k" job)
    ⊎ (find_by_idempotency_key (some "u") "k" two ≡ none)
      × All (λ j. ¬ Matches (some "u") "k" j) (values two.jobs)
find_by_idempotency_key_exact_example = find_by_idempotency_key_exact (some "u") "k" two
