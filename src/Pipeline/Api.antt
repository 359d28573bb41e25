-- ===== src/Pipeline/Api.antt =====
-- pipeline-worker/main.py: the routes that create and cancel a job, and the watchdog. Within one
-- request the clock is read once. The metrics counters are not modelled.
pub mod Submit
pub mod Cancel
pub mod Watchdog
use ai_trans_clips_tts.Prelude.{
  ℕ, ◌+◌, ◌-◌, ◌*◌, String, Bool, true, false, ◌&&◌, ◌||◌, not, Option, none, some, List, [], ◌∷◌,
  ◌==◌, string_eq, if◌then◌else◌, ltb, leb, count,
}
use mathlib.Core.Option
use ai_trans_clips_tts.Prelude.Int.{ℤ}
use ai_trans_clips_tts.Pipeline.Jobs.{
  Job, JobInput, JobStatus, queued, processing, completed, failed, canceled, JobError, Field,
  TranslateOptions, Store, to_dict, create_job, find_by_idempotency_key, list_jobs, get_job,
  update_job,
}

-- `TranslateRequest`, with what its defaults fill in.
pub record TranslateRequest : Type 0 where
  pub source_url : Option String
  pub source_key : Option String
  pub source_language : String
  pub target_language : String
  pub voice : Option String
  pub options : TranslateOptions
  pub priority : ℤ
  pub max_concurrent_jobs : Option ℕ
  pub max_duration_seconds : Option ℕ
  pub gemini_tier : Option String
  pub user_id : Option String
  pub job_id : Option String

-- QUEUE_MAX_DEPTH, by default
abbrev pub queue_max_depth : ℕ
queue_max_depth = 100

-- A refusal with its code, 503, the job that is there, or 202 with a new job.
pub data Response : Type 0 where
  bad_request : String → Response
  queue_full : Response
  existing accepted : Job → Response

-- The truth of a string that may be None.
unfoldable pub is_given : Option String → Bool
is_given none = false
is_given (some t) = not (t == "")

-- `headers.get("Idempotency-Key") or …`
unfoldable pub choose_key : Option String → String → String
choose_key none canonical = canonical
choose_key (some key) canonical = if key == "" then canonical else key

unfoldable pub is_in_flight : JobStatus → Bool
is_in_flight queued = true
is_in_flight processing = true
is_in_flight _ = false

unfoldable pub input_of : TranslateRequest → String → Option String → JobInput
input_of req key request_id = record {
  source_url = req.source_url;
  source_key = req.source_key;
  source_language = req.source_language;
  target_language = req.target_language;
  voice = req.voice;
  options = some req.options;
  idempotency_key = some key;
  user_id = req.user_id;
  priority = req.priority;
  max_concurrent_jobs = req.max_concurrent_jobs;
  max_duration_seconds = req.max_duration_seconds;
  gemini_tier = req.gemini_tier;
  request_id = request_id;
  job_id = req.job_id;
}

-- The lookup of an earlier job, which passes None as the user, and the creation of a new one.
unfoldable pub submit :
    ℕ → String → TranslateRequest → String → Option String → Option Job → Store → Response × Store
unfolding input_of
submit now fresh req key request_id (some job) s = (existing (to_dict job), s)
submit now fresh req key request_id none s =
    let (job, s') = create_job now fresh (input_of req key request_id) s in
    (accepted (to_dict job), s')

-- `sum(1 for j in jobs if j.status in ("queued", "processing"))`
unfoldable pub in_flight : List Job → ℕ
unfolding is_in_flight
in_flight jobs = count (λ job. is_in_flight job.status) jobs

-- The last argument but one is `_canonical_idempotency_key(req, None)`, a digest of the request.
unfoldable pub create_translate_job :
    ℕ
    → String
    → TranslateRequest
    → Option String
    → Option String
    → (TranslateRequest → String)
    → Store
    → Response × Store
unfolding is_given submit in_flight
create_translate_job now fresh req request_id header canonical s =
    if not (is_given req.source_url) && not (is_given req.source_key)
    then (bad_request "MISSING_SOURCE", s)
    else if is_given req.source_url && is_given req.source_key
    then (bad_request "CONFLICT", s)
    else let (jobs, s') = list_jobs now 200 s in
      if leb queue_max_depth (in_flight jobs)
      then (queue_full, s')
      else let key = choose_key header (canonical req) in
        submit now fresh req key request_id (find_by_idempotency_key none key s') s'

unfoldable pub is_terminal : JobStatus → Bool
is_terminal completed = true
is_terminal failed = true
is_terminal canceled = true
is_terminal _ = false

abbrev pub cancel_fields : List Field
cancel_fields =
    Field.set_status canceled
    ∷ Field.set_error (some (record { code = "CANCELED"; message = "canceled by user" }))
    ∷ []

-- 404 is none. The last look-up answers with what the update has left.
unfoldable pub cancel_found : ℕ → String → Option Job × Store → Option Job × Store
unfolding is_terminal
cancel_found now job_id (none, s) = (none, s)
cancel_found now job_id (some job, s) =
    if is_terminal job.status
    then (some (to_dict job), s)
    else let (after, s') = get_job now job_id (update_job now job_id cancel_fields s).1 in
      (Option.map to_dict after, s')

unfoldable pub cancel_job : ℕ → String → Store → Option Job × Store
unfolding cancel_found
cancel_job now job_id s = cancel_found now job_id (get_job now job_id s)

-- QUEUE_TIMEOUT_SECONDS and JOB_TIMEOUT_SECONDS, in milliseconds.
pub record Limits : Type 0 where
  pub queue_timeout : ℕ
  pub job_timeout : ℕ

-- The code that the watchdog fails a job with, if any.
unfoldable pub verdict : ℕ → Bool → Limits → Job → Option String
verdict now scheduler_alive limits job = elim job.status [
  | JobStatus.queued ↦
      if not scheduler_alive
      then some "SCHEDULER_DOWN"
      else if ltb limits.queue_timeout (now - job.created_at)
      then some "QUEUE_TIMEOUT"
      else none
  | JobStatus.processing ↦
      if ltb limits.job_timeout (now - job.updated_at) then some "JOB_TIMEOUT" else none
  | _ ↦ none
]

unfoldable pub stall_fields : String → String → List Field
stall_fields code message =
    Field.set_status failed
    ∷ Field.set_progress 100
    ∷ Field.set_error (some (record { code = code; message = message }))
    ∷ []

-- `_fail_stalled`
unfoldable pub fail_stalled : ℕ → String → String → String → Store → Store
unfolding stall_fields
fail_stalled now job_id code message s = (update_job now job_id (stall_fields code message) s).1

-- The text of a message is a function of the code and the job.
unfoldable pub reap : ℕ → Bool → Limits → (String → Job → String) → List Job → Store → Store
unfolding verdict fail_stalled
reap now alive limits text [] s = s
reap now alive limits text (job ∷ rest) s = elim (verdict now alive limits job) [
  | none ↦ reap now alive limits text rest s
  | some code ↦ reap now alive limits text rest (fail_stalled now job.job_id code (text code job) s)
]

unfoldable pub reap_stalled_jobs : ℕ → Bool → Limits → (String → Job → String) → Store → Store
unfolding reap
reap_stalled_jobs now alive limits text s =
    let (jobs, s') = list_jobs now 500 s in reap now alive limits text jobs s'
