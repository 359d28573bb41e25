-- ===== src/Tts/JobRunner.antt =====
-- app/services/job_runner.py: the consumer of the queue. The synthesis runs in a thread and reports
-- through a callback; every write of the callback is a coroutine of its own, so the last ones may
-- reach the store after the final write.
pub mod Ending
pub mod Progress
pub mod Frame
pub mod Consumer
use ai_trans_clips_tts.Prelude.{
  ℕ, zero, suc, ◌+◌, Bool, true, false, ◌&&◌, Option, none, some, List, [], ◌∷◌, ◌++◌,
  if◌then◌else◌, leb, take,
}
use ai_trans_clips_tts.Prelude.Text.{Text, codes}
use ai_trans_clips_tts.Tts.JobStore.{
  TtsJob, TtsStatus, queued, processing, completed, failed, MemoryJobStore, Change, set_status,
  set_progress, set_stage, set_error, set_audio_path, set_started_at, set_finished_at, get_job,
  update, remove_active, dequeue,
}

-- What a call returns, or the text and the class of the exception that it raises.
pub data Outcome {ℓ} (A : Type ℓ) : Type ℓ where
  returned : A → Outcome A
  raised : Text → Text → Outcome A

-- A call of `on_progress`: the time, the percent and the stage.
abbrev pub Report : Type 0
Report = ℕ × ℕ × Text

-- What `generate_tts` does: its calls of `on_progress` in order, and how it ends.
pub record Synthesis : Type 0 where
  pub calls : List Report
  pub outcome : Outcome Text

abbrev pub error_max_chars : ℕ
error_max_chars = 500

-- `tts_{job_id}.{job.fmt}`
unfoldable pub file_name : Text → Text → Text
file_name job_id fmt = codes "tts_" ++ job_id ++ codes "." ++ fmt

-- The calls that move forward: `furthest` starts at 0.
unfoldable pub advances : ℕ → List Report → List Report
advances furthest [] = []
advances furthest ((now, percent, stage) ∷ calls) =
    if leb percent furthest
    then advances furthest calls
    else (now, percent, stage) ∷ advances percent calls

unfoldable pub write_progress : Text → List Report → MemoryJobStore → MemoryJobStore
write_progress job_id [] s = s
write_progress job_id ((now, percent, stage) ∷ calls) s =
    write_progress job_id calls (update now job_id (set_progress percent ∷ set_stage stage ∷ []) s)

unfoldable pub started : ℕ → List Change
started now =
    set_status processing
    ∷ set_started_at (some now)
    ∷ set_progress 1
    ∷ set_stage (codes "starting")
    ∷ []

-- `str(exc)[:ERROR_MAX_CHARS] or exc.__class__.__name__`
unfoldable pub error_text : Text → Text → Text
error_text message cls = elim (take error_max_chars message) [ [] ↦ cls | ◌∷◌ c rest ↦ c ∷ rest ]

unfoldable pub ended : ℕ → Outcome Text → List Change
unfolding error_text
ended now (returned path) =
    set_status completed
    ∷ set_progress 100
    ∷ set_stage (codes "completed")
    ∷ set_audio_path (some path)
    ∷ set_finished_at (some now)
    ∷ set_error none
    ∷ []
ended now (raised message cls) =
    set_status failed
    ∷ set_stage (codes "failed")
    ∷ set_error (some (error_text message cls))
    ∷ set_finished_at (some now)
    ∷ []

abbrev is_named : Option Text → Bool
is_named none = false
is_named (some []) = false
is_named (some (c ∷ rest)) = true

-- `if job.tier: await store.remove_active(job.tier, job_id)`
unfoldable pub release_slot : Option Text → Text → MemoryJobStore → MemoryJobStore
release_slot none job_id s = s
release_slot (some []) job_id s = s
release_slot (some (c ∷ rest)) job_id s = remove_active (c ∷ rest) job_id s

abbrev pub is_waiting : TtsStatus → Bool
is_waiting queued = true
is_waiting _ = false

-- The times of the two writes, and which of the last advances come after the final write: the code
-- lets any number of them be late.
pub record Timing : Type 0 where
  pub start_time : ℕ
  pub end_time : ℕ
  pub on_time : ℕ

-- `xs[n:]`
abbrev pub drop {ℓ} : {A : Type ℓ} → ℕ → List A → List A
drop zero xs = xs
drop (suc n) [] = []
drop (suc n) (x ∷ xs) = drop n xs

-- What the runner calls: the place of a file, the voice of an owner, and the synthesis.
pub record Engine {ℓ} (Voice : Type ℓ) : Type ℓ where
  pub output_path : Text → Text
  pub load_voice : ℕ → Text → Outcome Voice
  pub generate_tts : Text → Text → Option Text → Text → Text → Option Voice → Synthesis

unfoldable pub and_then {ℓ} : {A : Type ℓ} → Outcome A → (Option A → Synthesis) → Synthesis
and_then (returned a) run = run (some a)
and_then (raised message cls) run = record { calls = []; outcome = raised message cls }

-- `if job.voice and job.owner is not None: voice_data = load_voice(job.owner, job.voice)`
unfoldable pub with_voice {ℓ} :
    {Voice : Type ℓ}
    → Engine Voice
    → Option Text
    → Option ℕ
    → (Option Voice → Synthesis)
    → Synthesis
unfolding and_then
with_voice e (some (c ∷ name)) (some owner) run = and_then (e.load_voice owner (c ∷ name)) run
with_voice e _ _ run = run none

-- The body of the `try`.
unfoldable pub synthesise {ℓ} : {Voice : Type ℓ} → Engine Voice → TtsJob → Text → Synthesis
unfolding with_voice file_name
synthesise e job job_id = with_voice e job.voice job.owner (
    e.generate_tts job.text job.language job.voice (e.output_path (file_name job_id job.fmt))
      job.fmt)

unfoldable pub run_job {ℓ} :
    {Voice : Type ℓ} → Engine Voice → Timing → TtsJob → Text → MemoryJobStore → MemoryJobStore
unfolding synthesise advances write_progress started ended
run_job e time job job_id s =
    let began = update time.start_time job_id (started time.start_time) s in
    let work = synthesise e job job_id in
    let writes = advances 0 work.calls in
    let reported = write_progress job_id (take time.on_time writes) began in
    let done = update time.end_time job_id (ended time.end_time work.outcome) reported in
    write_progress job_id (drop time.on_time writes) done

unfoldable pub process_found {ℓ} :
    {Voice : Type ℓ}
    → Engine Voice
    → Timing
    → Text
    → Option TtsJob
    → MemoryJobStore
    → MemoryJobStore
unfolding run_job release_slot
process_found e time job_id none s = s
process_found e time job_id (some job) s =
    if is_waiting job.status
    then release_slot job.tier job_id (run_job e time job job_id s)
    else release_slot job.tier job_id s

unfoldable pub process_job {ℓ} :
    {Voice : Type ℓ} → Engine Voice → Timing → Text → MemoryJobStore → MemoryJobStore
unfolding process_found get_job
process_job e time job_id s = process_found e time job_id (get_job job_id s) s

unfoldable pub process_next {ℓ} :
    {Voice : Type ℓ} → Engine Voice → Timing → Option Text → MemoryJobStore → MemoryJobStore
unfolding process_job
process_next e time (some (c ∷ rest)) s = process_job e time (c ∷ rest) s
process_next e time _ s = s

-- Turns of the loop of `consume_forever`, one for each timing.
unfoldable pub consume {ℓ} :
    {Voice : Type ℓ} → Engine Voice → List Timing → MemoryJobStore → MemoryJobStore
unfolding process_next dequeue
consume e [] s = s
consume e (time ∷ times) s =
    let (job_id, waiting) = dequeue s in consume e times (process_next e time job_id waiting)
