-- ===== src/Examples/Streams.antt =====
-- The event queues of pipeline-worker/jobs.py on small inputs.
use mathlib.Core.Option
use ai_trans_clips_tts.Prelude.{some, List, [], ◌∷◌, ◌≡◌, refl, nat_eq, string_eq}
use ai_trans_clips_tts.Prelude.Dict.{get, put}
use ai_trans_clips_tts.Prelude.Text.{truncate}
use ai_trans_clips_tts.Examples.Samples.{input}
use ai_trans_clips_tts.Pipeline.Jobs.{
  Job, JobStatus, Field, Store, empty, create_job, update_job, add_listener, remove_listener,
  choose_id, setattrs, to_dict, put_nowait,
}

abbrev job_a : Job
job_a = (create_job 5 "x" input empty).0

abbrev watched : Store
watched = (add_listener "a" (create_job 5 "x" input empty).1).1

abbrev done_fields : List Field
done_fields = Field.set_status JobStatus.completed ∷ []

program : Unit {0}
unfolding create_job update_job add_listener remove_listener choose_id truncate setattrs to_dict
    put_nowait get put
program = tt

-- The stream of the job hears of the update.
watched_event :
    get (update_job 9 "a" done_fields watched).1.queues 0
    ≡ some (to_dict (record job_a { status = JobStatus.completed; updated_at = 9 }) ∷ [])
unfolding program
watched_event = refl
