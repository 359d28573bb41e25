-- ===== src/Pipeline/Run/Ends.antt =====
-- The ends of a run in pipeline-worker/pipeline.py, beside the cancel route of
-- pipeline-worker/main.py.
use ai_trans_clips_tts.Prelude.{
  ℕ, String, true, false, some, [], ◌∷◌, ◌≡◌, ◌≢◌, refl, ◌⊎◌, inl, inr, string_eq, Bool-cases, ap,
}
use ai_trans_clips_tts.Prelude.Dict.{Dict, get}
use ai_trans_clips_tts.Pipeline.Jobs.{
  Job, JobStatus, queued, failed, processing, completed, canceled, Stage, Field, Store, setattrs,
  setattr, is_expired,
}
use ai_trans_clips_tts.Pipeline.Api.{cancel_job, is_terminal}
use ai_trans_clips_tts.Pipeline.Api.Cancel.{
  cancel_job_exact, canceled_at, get-update_job, get_job-found,
}
use ai_trans_clips_tts.Pipeline.Run.{
  begin_run, begin_found, finish_run, finish_fields, is_canceled, update_stage, stage_progress,
  Rendered,
}

status_canceled : (t : JobStatus) → is_canceled t ≡ true → t ≡ canceled
status_canceled canceled h = refl
status_canceled queued h = cc
status_canceled processing h = cc
status_canceled completed h = cc
status_canceled failed h = cc

-- A job that is there and within its time to live: when it was canceled before its turn, the run
-- does nothing and the store is as it was; otherwise the run starts, and the job is processing, in
-- the stage of the download, with its progress.
pub begin_run_exact :
    (now : ℕ) (i : String) (s : Store) (job : Job)
    → get s.jobs i ≡ some job
    → is_expired now job ≡ false
    → (job.status ≡ canceled) × (begin_run now i s ≡ (false, s))
      ⊎ (job.status ≢ canceled)
        × ((begin_run now i s).0 ≡ true)
        × (get (begin_run now i s).1.jobs i
            ≡ some (record job {
              status = processing;
              stage = Stage.downloading;
              progress = 15;
              updated_at = now;
            }))
unfolding begin_run setattrs setattr update_stage stage_progress
begin_run_exact now i s job found alive = elim (Bool-cases (is_canceled job.status)) [
  | inl over ↦ inl (
    status_canceled job.status over,
    rw (get_job-found now i s job found alive, begin_found, over) refl,
  )
  | inr live ↦ inr (
    λ e. let over : is_canceled job.status ≡ true = ap is_canceled e in cc,
    rw (get_job-found now i s job found alive, begin_found, live) refl,
    rw (get_job-found now i s job found alive, begin_found, live)
        (get-update_job now i
          (Field.set_stage Stage.downloading
            ∷ Field.set_progress 15
            ∷ Field.set_status processing
            ∷ [])
          s job found),
  )
]

-- A job that is running when the user cancels it is canceled; but the run goes on, and when its
-- video is rendered the job is completed, still with the error of the cancel.
pub finish_run-cancel_job :
    (now later : ℕ) (i : String) (state : Dict String String) (rendered : Rendered) (s : Store)
    (job : Job)
    → get s.jobs i ≡ some job
    → is_expired now job ≡ false
    → job.status ≡ processing
    → (get (cancel_job now i s).1.jobs i ≡ some (canceled_at now job))
      × ((after : Job) × (get (finish_run later i state rendered (cancel_job now i s).1).jobs i
            ≡ some after)
          × (after.status ≡ completed)
          × (after.error ≡ (canceled_at now job).error))
unfolding finish_run finish_fields setattrs setattr
finish_run-cancel_job now later i state rendered s job found alive running =
    elim (cancel_job_exact now i s job found alive) [
      | inl (terminal, answer) ↦
          let live : is_terminal job.status ≡ false = unfold is_terminal in rw running refl in cc
      | inr (live, answer, stored) ↦ (
        stored,
        (
          record (setattrs (finish_fields state rendered) (canceled_at now job)) {
            updated_at = later;
          },
          get-update_job later i (finish_fields state rendered) (cancel_job now i s).1
              (canceled_at now job) stored,
          refl,
          refl,
        ),
      )
    ]
