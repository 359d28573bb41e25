-- ===== src/Examples/Samples.antt =====
-- Shared sample data.
use ai_trans_clips_tts.Prelude.{ℕ, String, none, some}
use ai_trans_clips_tts.Prelude.Int.{pos}
use ai_trans_clips_tts.Pipeline.Jobs.{Job, JobInput, new_job}

abbrev pub input : JobInput
input = record {
  source_url = some "https://example.com/clip";
  source_key = none;
  source_language = "auto";
  target_language = "vi";
  voice = none;
  options = none;
  idempotency_key = some "k";
  user_id = some "u";
  priority = pos 0;
  max_concurrent_jobs = none;
  max_duration_seconds = none;
  gemini_tier = none;
  request_id = none;
  job_id = some "a";
}

-- A queued job of a user, with a priority.
abbrev pub job_of : String → String → ℕ → ℕ → Job
job_of jid user priority created =
    new_job created jid
      (record input { user_id = some user; priority = pos priority; job_id = some jid })
