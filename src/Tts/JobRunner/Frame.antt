-- ===== src/Tts/JobRunner/Frame.antt =====
-- What a run of app/services/job_runner.py leaves of the rest of the store: the queue, the other jobs
-- and the slots.
use ai_trans_clips_tts.Prelude.{
  ℕ, ◌<◌, ◌≡◌, refl, ap, ◌∙◌, false, Option, none, some, List, [], ◌∷◌, arith, ◌==◌, nat_eq,
  list_eq, Bool-cases, Option-cases, inl, inr, take, length,
}
use ai_trans_clips_tts.Prelude.Dict.{Dict, get, get-put}
use ai_trans_clips_tts.Prelude.Text.{Text}
use ai_trans_clips_tts.Tts.JobStore.{
  TtsJob, MemoryJobStore, Change, set_progress, set_stage, get_job, update, remove_active,
}
use ai_trans_clips_tts.Tts.JobStore.Active.{is_active, is_active_of_active, remove_active-inactive}
use ai_trans_clips_tts.Tts.JobRunner.{
  Engine, Timing, Report, write_progress, release_slot, run_job, process_found, process_job,
  is_waiting, started, ended, advances, synthesise, drop,
}

-- What a write by `update` leaves of the store.
SameBut : Text → MemoryJobStore → MemoryJobStore → Type 0
SameBut i a b =
    (a.queue ≡ b.queue)
    × (a.active ≡ b.active)
    × ((j : Text) → (i == j) ≡ false → get a.jobs j ≡ get b.jobs j)

SameBut-trans : (i : Text) (a b c : MemoryJobStore) → SameBut i a b → SameBut i b c → SameBut i a c
unfolding SameBut
SameBut-trans i a b c (q, x, f) (q', x', g) = (q ∙ q', x ∙ x', λ j other. f j other ∙ g j other)

update_same :
    (now : ℕ) (i : Text) (changes : List Change) (s : MemoryJobStore)
    → SameBut i (update now i changes s) s
unfolding SameBut update
update_same now i changes s = elim (Option-cases (get s.jobs i)) [
  | inl absent ↦ rw (absent, update) (refl, refl, λ j other. refl)
  | inr (job, found) ↦ rw (found, update) (refl, refl, λ j other. rw (get-put, other) refl)
]

write_progress_same :
    (i : Text) (calls : List Report) (s : MemoryJobStore) → SameBut i (write_progress i calls s) s
unfolding write_progress SameBut
write_progress_same i [] s = (refl, refl, λ j other. refl)
write_progress_same i ((now, percent, stage) ∷ calls) s =
    let written = update now i (set_progress percent ∷ set_stage stage ∷ []) s in
    SameBut-trans i (write_progress i calls written) written s (write_progress_same i calls written)
      (update_same now i (set_progress percent ∷ set_stage stage ∷ []) s)

run_job_same {ℓ} :
    {Voice : Type ℓ} (e : Engine Voice) (time : Timing) (job : TtsJob) (i : Text)
    (s : MemoryJobStore)
    → SameBut i (run_job e time job i s) s
unfolding run_job
run_job_same e time job i s =
    let work = synthesise e job i in
    let writes = advances 0 work.calls in
    let began = update time.start_time i (started time.start_time) s in
    let reported = write_progress i (take time.on_time writes) began in
    let done = update time.end_time i (ended time.end_time work.outcome) reported in
    let last = write_progress i (drop time.on_time writes) done in
    SameBut-trans i last done s (write_progress_same i (drop time.on_time writes) done) (
      SameBut-trans i done reported s
        (update_same time.end_time i (ended time.end_time work.outcome) reported)
        (SameBut-trans i reported began s (write_progress_same i (take time.on_time writes) began)
          (update_same time.start_time i (started time.start_time) s)))

pub release_slot_same :
    (tier : Option Text) (i : Text) (s : MemoryJobStore)
    → ((release_slot tier i s).queue ≡ s.queue) × ((release_slot tier i s).jobs ≡ s.jobs)
unfolding release_slot remove_active
release_slot_same none i s = (refl, refl)
release_slot_same (some []) i s = (refl, refl)
release_slot_same (some (c ∷ rest)) i s = elim (Option-cases (get s.active (c ∷ rest))) [
  | inl absent ↦ rw (absent, remove_active) (refl, refl)
  | inr (ids, found) ↦ rw (found, remove_active) (refl, refl)
]

active-release_slot :
    (tier : Option Text) (i : Text) (a b : MemoryJobStore)
    → a.active ≡ b.active
    → (release_slot tier i a).active ≡ (release_slot tier i b).active
unfolding release_slot remove_active
active-release_slot none i a b h = h
active-release_slot (some []) i a b h = h
active-release_slot (some (c ∷ rest)) i a b h = elim (Option-cases (get b.active (c ∷ rest))) [
  | inl absent ↦ rw (h, absent, remove_active) h
  | inr (ids, found) ↦ rw (h, found, remove_active) (rw h refl)
]

release-SameBut :
    (tier : Option Text) (i : Text) (a b : MemoryJobStore)
    → SameBut i a b
    → ((release_slot tier i a).queue ≡ b.queue)
      × ((release_slot tier i a).active ≡ (release_slot tier i b).active)
      × ((j : Text) → (i == j) ≡ false → get (release_slot tier i a).jobs j ≡ get b.jobs j)
unfolding SameBut
release-SameBut tier i a b (q, x, f) =
    let (queue, jobs) = release_slot_same tier i a in
    (
      queue ∙ q,
      active-release_slot tier i a b x,
      λ j other. ap (λ (d : Dict Text TtsJob). get d j) jobs ∙ f j other,
    )

-- Running a job leaves the queue and the other jobs, and of the slots it changes what giving back
-- the job's own changes, whether the job was waiting or not.
pub process_job_frame {ℓ} :
    {Voice : Type ℓ} (e : Engine Voice) (time : Timing) (job : TtsJob) (i : Text)
    (s : MemoryJobStore)
    → get s.jobs i ≡ some job
    → ((process_job e time i s).queue ≡ s.queue)
      × ((process_job e time i s).active ≡ (release_slot job.tier i s).active)
      × ((j : Text) → (i == j) ≡ false → get (process_job e time i s).jobs j ≡ get s.jobs j)
unfolding process_job process_found get_job SameBut
process_job_frame e time job i s found = elim (Bool-cases (is_waiting job.status)) [
  | inl waiting ↦
      rw (found, process_found, waiting)
        (release-SameBut job.tier i (run_job e time job i s) s (run_job_same e time job i s))
  | inr not_waiting ↦
      rw (found, process_found, not_waiting)
        (release-SameBut job.tier i s s (refl, refl, λ j other. refl))
]

-- After the run of a job with a tier, the job holds no slot of that tier, whether it completed,
-- failed, or was not waiting at all.
pub process_job_frees {ℓ} :
    {Voice : Type ℓ} (e : Engine Voice) (time : Timing) (job : TtsJob) (i tier : Text)
    (s : MemoryJobStore)
    → get s.jobs i ≡ some job
    → job.tier ≡ some tier
    → 0 < length tier
    → is_active tier i (process_job e time i s) ≡ false
process_job_frees e time job i [] s found h n = absurd (omega (arith, n))
process_job_frees e time job i (c ∷ rest) s found h n =
    is_active_of_active (c ∷ rest) i (process_job e time i s) (remove_active (c ∷ rest) i s)
      ((process_job_frame e time job i s found).1 ∙ unfold release_slot in rw h refl)
    ∙ remove_active-inactive (c ∷ rest) i s
