-- ===== src/Tts/JobRunner/Consumer.antt =====
-- The loop of app/services/job_runner.py over the queue: after enough turns no job is left waiting.
use ai_trans_clips_tts.Prelude.{Bool, false, none, some, nat_eq, list_eq}
use ai_trans_clips_tts.Prelude.Dict.{Dict, get}
use ai_trans_clips_tts.Prelude.Text.{Text}
use ai_trans_clips_tts.Tts.JobStore.{MemoryJobStore}
use ai_trans_clips_tts.Tts.JobRunner.{is_waiting}

abbrev pub waits : Text → MemoryJobStore → Bool
waits i s = elim (get s.jobs i) [ none ↦ false | some job ↦ is_waiting job.status ]
