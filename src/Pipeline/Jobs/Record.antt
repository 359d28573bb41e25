-- ===== src/Pipeline/Jobs/Record.antt =====
-- The job record of pipeline-worker/jobs.py, what creates it, and the fields that callers set.
use ai_trans_clips_tts.Prelude.{ℕ, String, Bool, Option, none, List, [], ◌∷◌}
use ai_trans_clips_tts.Prelude.Int.{ℤ}
use ai_trans_clips_tts.Prelude.Dict.{Dict}

pub data JobStatus : Type 0 where
  queued processing completed failed canceled : JobStatus

-- The first stage of the source, `queued`, is `waiting` here: `queued` is the status.
pub data Stage : Type 0 where
  waiting downloading extracting transcribing detecting_subs synthesizing : Stage
  aligning muxing done : Stage

pub record JobError : Type 0 where
  pub code : String
  pub message : String

-- `TranslateOptions`; the speeds are in hundredths.
pub record TranslateOptions : Type 0 where
  pub original_audio_volume_db : ℤ
  pub mute_original : Bool
  pub subtitle_position : String
  pub remove_original_subtitles : Bool
  pub burn_subtitles : Bool
  pub subtitle_style : Option (Dict String String)
  pub watermark : Option String
  pub context : Option String
  pub glossary : Option String
  pub min_speed : ℕ
  pub max_speed : ℕ

pub record Job : Type 0 where
  pub job_id : String
  pub source_url : Option String
  pub source_key : Option String
  pub source_language : String
  pub target_language : String
  pub voice : Option String
  pub options : Option TranslateOptions
  pub idempotency_key : Option String
  pub user_id : Option String
  pub priority : ℤ
  pub max_concurrent_jobs : Option ℕ
  pub max_duration_seconds : Option ℕ
  pub gemini_tier : Option String
  pub gemini_input_tokens : Option ℕ
  pub gemini_output_tokens : Option ℕ
  pub status : JobStatus
  pub stage : Stage
  pub stage_state : Dict String String
  pub progress : ℕ
  pub error : Option JobError
  pub artifacts : Option (Dict String (Option String))
  pub duration_seconds : Option ℕ
  pub segments_count : Option ℕ
  pub file_path : Option String
  pub file_name : Option String
  pub file_size : Option ℕ
  pub request_id : Option String
  pub created_at : ℕ
  pub updated_at : ℕ

-- The keyword arguments of `create_job`.
pub record JobInput : Type 0 where
  pub source_url : Option String
  pub source_key : Option String
  pub source_language : String
  pub target_language : String
  pub voice : Option String
  pub options : Option TranslateOptions
  pub idempotency_key : Option String
  pub user_id : Option String
  pub priority : ℤ
  pub max_concurrent_jobs : Option ℕ
  pub max_duration_seconds : Option ℕ
  pub gemini_tier : Option String
  pub request_id : Option String
  pub job_id : Option String

-- `Job(job_id=jid, …)`, with the defaults of the dataclass
unfoldable pub new_job : ℕ → String → JobInput → Job
new_job now jid input = record {
  job_id = jid;
  source_url = input.source_url;
  source_key = input.source_key;
  source_language = input.source_language;
  target_language = input.target_language;
  voice = input.voice;
  options = input.options;
  idempotency_key = input.idempotency_key;
  user_id = input.user_id;
  priority = input.priority;
  max_concurrent_jobs = input.max_concurrent_jobs;
  max_duration_seconds = input.max_duration_seconds;
  gemini_tier = input.gemini_tier;
  gemini_input_tokens = none;
  gemini_output_tokens = none;
  status = queued;
  stage = waiting;
  stage_state = [];
  progress = 0;
  error = none;
  artifacts = none;
  duration_seconds = none;
  segments_count = none;
  file_path = none;
  file_name = none;
  file_size = none;
  request_id = input.request_id;
  created_at = now;
  updated_at = now;
}

-- What leaves the worker: no local path.
unfoldable pub to_dict : Job → Job
to_dict job = record job { file_path = none }

-- The keyword arguments that the callers of `update_job` pass.
pub data Field : Type 0 where
  set_status : JobStatus → Field
  set_stage : Stage → Field
  set_stage_state : Dict String String → Field
  set_progress : ℕ → Field
  set_error : Option JobError → Field
  set_artifacts : Option (Dict String (Option String)) → Field
  set_file : Option String → Option String → Option ℕ → Field
  set_usage : Option ℕ → Option ℕ → Option ℕ → Option ℕ → Field

-- `setattr(job, k, v)`
unfoldable pub setattr : Field → Job → Job
setattr (set_status v) job = record job { status = v }
setattr (set_stage v) job = record job { stage = v }
setattr (set_stage_state v) job = record job { stage_state = v }
setattr (set_progress v) job = record job { progress = v }
setattr (set_error v) job = record job { error = v }
setattr (set_artifacts v) job = record job { artifacts = v }
setattr (set_file path name size) job = record job {
  file_path = path;
  file_name = name;
  file_size = size;
}
setattr (set_usage seconds segments input output) job = record job {
  duration_seconds = seconds;
  segments_count = segments;
  gemini_input_tokens = input;
  gemini_output_tokens = output;
}

-- `for k, v in fields.items(): setattr(job, k, v)`
unfoldable pub setattrs : List Field → Job → Job
unfolding setattr
setattrs [] job = job
setattrs (f ∷ fs) job = setattrs fs (setattr f job)
