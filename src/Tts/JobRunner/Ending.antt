-- ===== src/Tts/JobRunner/Ending.antt =====
-- What app/services/job_runner.py leaves in the store when a job ends.
use ai_trans_clips_tts.Prelude.{
  ℕ, ◌≡◌, refl, ap, ◌∙◌, Option, none, some, List, [], ◌∷◌, arith, if◌then◌else◌, ◌==◌, ==_refl,
  nat_eq, list_eq, Option-cases, inl, inr, take,
}
use ai_trans_clips_tts.Prelude.Dict.{Dict, get, get-put}
use ai_trans_clips_tts.Prelude.Text.{Text}
use ai_trans_clips_tts.Tts.JobStore.{
  TtsJob, queued, completed, failed, MemoryJobStore, Change, set_fields, set_field, set_progress,
  set_stage, get_job, update, remove_active,
}
use ai_trans_clips_tts.Tts.JobRunner.{
  Outcome, returned, raised, Report, Engine, Timing, advances, write_progress, started, ended,
  error_text, release_slot, synthesise, run_job, process_found, process_job, drop,
}

-- A job after changes, and its stamp.
unfoldable pub stamped : ℕ → List Change → TtsJob → TtsJob
unfolding set_fields
stamped now changes job = record (set_fields changes job) { updated_at = now }

unfoldable pub progressed : List Report → TtsJob → TtsJob
progressed [] job = job
progressed ((now, percent, stage) ∷ calls) job =
    progressed calls (record job { progress = percent; stage = stage; updated_at = now })

pub get-update :
    (now : ℕ) (i j : Text) (changes : List Change) (s : MemoryJobStore) (job : TtsJob)
    → get s.jobs i ≡ some job
    → get (update now i changes s).jobs j
      ≡ (if i == j then some (stamped now changes job) else get s.jobs j)
unfolding update stamped
get-update now i j changes s job found =
    rw (found, update) (get-put s.jobs i j (stamped now changes job))

get-update_self :
    (now : ℕ) (i : Text) (changes : List Change) (s : MemoryJobStore) (job : TtsJob)
    → get s.jobs i ≡ some job
    → get (update now i changes s).jobs i ≡ some (stamped now changes job)
get-update_self now i changes s job found =
    rw (get-update now i i changes s job found, ==_refl i) refl

get-write_progress :
    (i : Text) (calls : List Report) (s : MemoryJobStore) (job : TtsJob)
    → get s.jobs i ≡ some job
    → get (write_progress i calls s).jobs i ≡ some (progressed calls job)
unfolding write_progress progressed stamped set_fields set_field
get-write_progress i [] s job found = found
get-write_progress i ((now, percent, stage) ∷ calls) s job found =
    get-write_progress i calls (update now i (set_progress percent ∷ set_stage stage ∷ []) s)
      (record job { progress = percent; stage = stage; updated_at = now })
      (get-update_self now i (set_progress percent ∷ set_stage stage ∷ []) s job found)

jobs-release_slot :
    (tier : Option Text) (i : Text) (s : MemoryJobStore) → (release_slot tier i s).jobs ≡ s.jobs
unfolding release_slot remove_active
jobs-release_slot none i s = refl
jobs-release_slot (some []) i s = refl
jobs-release_slot (some (c ∷ rest)) i s = elim (Option-cases (get s.active (c ∷ rest))) [
  | inl absent ↦ rw (absent, remove_active) refl
  | inr (ids, found) ↦ rw (found, remove_active) refl
]

-- The fields that the request sets.
abbrev pub SameRequest : TtsJob → TtsJob → Type 0
SameRequest a b =
    (a.id ≡ b.id)
    × (a.text ≡ b.text)
    × (a.language ≡ b.language)
    × (a.voice ≡ b.voice)
    × (a.fmt ≡ b.fmt)
    × (a.owner ≡ b.owner)
    × (a.user_id ≡ b.user_id)
    × (a.priority ≡ b.priority)
    × (a.tier ≡ b.tier)
    × (a.created_at ≡ b.created_at)

same_request : (job : TtsJob) → SameRequest job job
same_request job = (refl, refl, refl, refl, refl, refl, refl, refl, refl, refl)

-- The fields that a report of progress leaves.
abbrev SameState : TtsJob → TtsJob → Type 0
SameState a b =
    (a.status ≡ b.status)
    × (a.error ≡ b.error)
    × (a.audio_path ≡ b.audio_path)
    × (a.started_at ≡ b.started_at)
    × (a.finished_at ≡ b.finished_at)
    × SameRequest a b

progressed_same : (calls : List Report) (job : TtsJob) → SameState (progressed calls job) job
unfolding progressed
progressed_same [] job = (refl, refl, refl, refl, refl, same_request job)
progressed_same ((now, percent, stage) ∷ calls) job =
    progressed_same calls (record job { progress = percent; stage = stage; updated_at = now })

-- The job that the store holds at the end: `late` reports come after the final write.
final_job : Timing → Outcome Text → List Report → TtsJob → TtsJob
unfolding stamped progressed started ended
final_job time outcome writes job = progressed (drop time.on_time writes) (
    stamped time.end_time (ended time.end_time outcome) (
      progressed (take time.on_time writes)
        (stamped time.start_time (started time.start_time) job)))

get-run_job {ℓ} :
    {Voice : Type ℓ} (e : Engine Voice) (time : Timing) (job : TtsJob) (i : Text)
    (s : MemoryJobStore)
    → get s.jobs i ≡ some job
    → get (run_job e time job i s).jobs i
      ≡ some
          (final_job time (synthesise e job i).outcome (advances 0 (synthesise e job i).calls) job)
unfolding run_job final_job
get-run_job e time job i s found =
    let work = synthesise e job i in
    let early = take time.on_time (advances 0 work.calls) in
    let began = update time.start_time i (started time.start_time) s in
    let job₁ = stamped time.start_time (started time.start_time) job in
    let reported = write_progress i early began in
    let job₂ = progressed early job₁ in
    let done = update time.end_time i (ended time.end_time work.outcome) reported in
    let job₃ = stamped time.end_time (ended time.end_time work.outcome) job₂ in
    get-write_progress i (drop time.on_time (advances 0 work.calls)) done job₃ (
      get-update_self time.end_time i (ended time.end_time work.outcome) reported job₂ (
        get-write_progress i early began job₁
          (get-update_self time.start_time i (started time.start_time) s job found)))

get-process_job {ℓ} :
    {Voice : Type ℓ} (e : Engine Voice) (time : Timing) (job : TtsJob) (i : Text)
    (s : MemoryJobStore)
    → get s.jobs i ≡ some job
    → job.status ≡ queued
    → get (process_job e time i s).jobs i
      ≡ some
          (final_job time (synthesise e job i).outcome (advances 0 (synthesise e job i).calls) job)
unfolding process_job process_found get_job final_job
get-process_job e time job i s found waiting =
    rw (found, process_found, waiting)
      (ap (λ (jobs : Dict Text TtsJob). get jobs i)
          (jobs-release_slot job.tier i (run_job e time job i s))
        ∙ get-run_job e time job i s found)

-- What a finished job says, by the way its synthesis ended.
abbrev pub IsEnded : ℕ → Outcome Text → TtsJob → TtsJob → Type 0
IsEnded now (returned path) before after =
    (after.status ≡ completed)
    × (after.audio_path ≡ some path)
    × (after.error ≡ none)
    × (after.finished_at ≡ some now)
IsEnded now (raised message cls) before after =
    (after.status ≡ failed)
    × (after.audio_path ≡ before.audio_path)
    × (after.error ≡ some (error_text message cls))
    × (after.finished_at ≡ some now)

SameRequest-trans : (a b c : TtsJob) → SameRequest a b → SameRequest b c → SameRequest a c
SameRequest-trans a b c f g = ground (arith, f, g)

module _ (time : Timing) (writes : List Report) (job : TtsJob) where
  before_end : TtsJob
  unfolding progressed stamped started
  before_end =
      progressed (take time.on_time writes) (stamped time.start_time (started time.start_time) job)

  early_same : SameState before_end (stamped time.start_time (started time.start_time) job)
  unfolding before_end
  early_same =
      progressed_same (take time.on_time writes)
        (stamped time.start_time (started time.start_time) job)

  late_same :
      (outcome : Outcome Text)
      → SameState
          (final_job time outcome writes job)
          (stamped time.end_time (ended time.end_time outcome) before_end)
  unfolding final_job before_end
  late_same outcome =
      progressed_same (drop time.on_time writes)
        (stamped time.end_time (ended time.end_time outcome) before_end)

  final_job-IsEnded :
      (outcome : Outcome Text)
      → IsEnded time.end_time outcome job (final_job time outcome writes job)
        × ((final_job time outcome writes job).started_at ≡ some time.start_time)
        × SameRequest (final_job time outcome writes job) job
  unfolding stamped ended started set_fields set_field
  final_job-IsEnded (returned path) =
      let (status, error, audio, start, finish, request) = late_same (returned path) in
      let (status', error', audio', start', finish', request') = early_same in
      (
        (status, audio, error, finish),
        start ∙ start',
        SameRequest-trans (final_job time (returned path) writes job) before_end job request
            request',
      )
  final_job-IsEnded (raised message cls) =
      let (status, error, audio, start, finish, request) = late_same (raised message cls) in
      let (status', error', audio', start', finish', request') = early_same in
      (
        (status, audio ∙ audio', error, finish),
        start ∙ start',
        SameRequest-trans (final_job time (raised message cls) writes job) before_end job request
            request',
      )

-- A queued job that is run ends: when the synthesis returns a path, as completed, with that path, no
-- error and the time of the end; when it raises, as failed, with the text of the error. The start is
-- recorded and the fields of the request are as they were. It holds however many reports of
-- progress reach the store after the final write.
pub process_job_ends {ℓ} :
    {Voice : Type ℓ} (e : Engine Voice) (time : Timing) (job : TtsJob) (i : Text)
    (s : MemoryJobStore)
    → get s.jobs i ≡ some job
    → job.status ≡ queued
    → (after : TtsJob) × (get (process_job e time i s).jobs i ≡ some after)
      × IsEnded time.end_time (synthesise e job i).outcome job after
      × (after.started_at ≡ some time.start_time)
      × SameRequest after job
process_job_ends e time job i s found waiting =
    let writes = advances 0 (synthesise e job i).calls in
    let (end, start, request) = final_job-IsEnded time writes job (synthesise e job i).outcome in
    (
      final_job time (synthesise e job i).outcome writes job,
      get-process_job e time job i s found waiting,
      end,
      start,
      request,
    )
