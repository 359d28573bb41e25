-- ===== src/Pipeline/Run.antt =====
-- pipeline-worker/pipeline.py: how run_pipeline writes its job: the start, the reports of its stages,
-- and its three ends. What the stages compute between the writes is not modelled here.
pub mod Ends
use ai_trans_clips_tts.Prelude.{
  ℕ, zero, suc, ◌*◌, ltb, String, Bool, true, false, Option, none, some, List, [], ◌∷◌, ◌==◌,
  string_eq, if◌then◌else◌,
}
use ai_trans_clips_tts.Prelude.Dict.{Dict, put}
use ai_trans_clips_tts.Pipeline.Jobs.{
  Job, JobStatus, queued, processing, completed, failed, canceled, JobError, Stage, Field, Store,
  get_job, update_job,
}

-- STAGE_PROGRESS, and 0 for a stage that it does not name
unfoldable pub stage_progress : Stage → ℕ
stage_progress Stage.waiting = 0
stage_progress Stage.downloading = 15
stage_progress Stage.extracting = 22
stage_progress Stage.transcribing = 45
stage_progress Stage.detecting_subs = 52
stage_progress Stage.synthesizing = 75
stage_progress Stage.aligning = 82
stage_progress Stage.muxing = 98
stage_progress Stage.done = 100

-- `_update`
unfoldable pub update_stage : ℕ → String → Stage → Option ℕ → List Field → Store → Store
unfolding stage_progress
update_stage now job_id stage none fields s =
    (update_job now job_id
      (Field.set_stage stage ∷ Field.set_progress (stage_progress stage) ∷ fields) s).1
update_stage now job_id stage (some progress) fields s =
    (update_job now job_id (Field.set_stage stage ∷ Field.set_progress progress ∷ fields) s).1

abbrev pub is_canceled : JobStatus → Bool
is_canceled canceled = true
is_canceled _ = false

-- Whether the stages are run at all, and the store before the first of them.
unfoldable pub begin_found : ℕ → String → Option Job × Store → Bool × Store
unfolding update_stage
begin_found now job_id (none, s) = (false, s)
begin_found now job_id (some job, s) =
    if is_canceled job.status
    then (false, s)
    else (true, update_stage now job_id Stage.downloading none (Field.set_status processing ∷ []) s)

unfoldable pub begin_run : ℕ → String → Store → Bool × Store
unfolding begin_found
begin_run now job_id s = begin_found now job_id (get_job now job_id s)

-- What the render has left.
pub record Rendered : Type 0 where
  pub artifacts : Dict String (Option String)
  pub translated : String
  pub file_size : Option ℕ

-- The last update of a run that has rendered its video; `state` is what it read of the stages.
unfoldable pub finish_fields : Dict String String → Rendered → List Field
finish_fields state rendered =
    Field.set_stage Stage.done
    ∷ Field.set_progress 100
    ∷ Field.set_status completed
    ∷ Field.set_stage_state (put (put state "muxing" "done") "done" "done")
    ∷ Field.set_artifacts (some rendered.artifacts)
    ∷ Field.set_file (some rendered.translated) (some "translated.mp4") rendered.file_size
    ∷ []

unfoldable pub finish_run : ℕ → String → Dict String String → Rendered → Store → Store
unfolding finish_fields
finish_run now job_id state rendered s = (update_job now job_id (finish_fields state rendered) s).1

-- A run that raised, with the code and the text of the exception.
unfoldable pub fail_run : ℕ → String → String → String → Store → Store
fail_run now job_id code message s =
    (update_job now job_id
      (Field.set_status failed
        ∷ Field.set_error (some (record { code = code; message = message }))
        ∷ Field.set_progress 100
        ∷ [])
      s).1

-- A run whose task was cancelled.
unfoldable pub cancel_run : ℕ → String → Store → Store
cancel_run now job_id s =
    (update_job now job_id
      (Field.set_status canceled
        ∷ Field.set_error (some (record { code = "CANCELED"; message = "canceled" }))
        ∷ [])
      s).1

-- `enforce_max_duration`, with the duration in milliseconds: no limit, or 0, lets every source pass.
unfoldable pub is_too_long : ℕ → Option ℕ → Bool
is_too_long duration none = false
is_too_long duration (some max_seconds) = elim max_seconds [
  | zero ↦ false
  | suc n ↦ ltb (suc n * 1000) duration
]
