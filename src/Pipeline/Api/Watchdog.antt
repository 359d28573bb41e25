-- ===== src/Pipeline/Api/Watchdog.antt =====
-- One pass of the watchdog of pipeline-worker/main.py.
use ai_trans_clips_tts.Prelude.{ℕ, String, Bool, none, some, List, ◌≡◌, string_eq, All}
use ai_trans_clips_tts.Prelude.Dict.{Dict, get}
use ai_trans_clips_tts.Pipeline.Jobs.{Job, failed}
use ai_trans_clips_tts.Pipeline.Api.{Limits, verdict}

-- What the watchdog makes of a job that it fails.
abbrev pub failed_at : ℕ → String → String → Job → Job
failed_at now code message job = record job {
  status = failed;
  progress = 100;
  error = some (record { code = code; message = message });
  updated_at = now;
}

module _ (now : ℕ) (alive : Bool) (limits : Limits) (text : String → Job → String) where
  -- What a pass makes of a job.
  unfoldable pub judged : Job → Job
  judged job = elim (verdict now alive limits job) [
    | none ↦ job
    | some code ↦ failed_at now code (text code job) job
  ]

  -- The listed jobs are those that the store held at the start, under their own ids.
  AreStored : Dict String Job → List Job → Type 0
  AreStored d jobs = All (λ j. get d j.job_id ≡ some j) jobs
