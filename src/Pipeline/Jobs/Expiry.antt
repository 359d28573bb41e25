-- ===== src/Pipeline/Jobs/Expiry.antt =====
-- When pipeline-worker/jobs.py forgets a job: `get_job` and the lazy expiry.
use ai_trans_clips_tts.Prelude.{
  ℕ, ◌+◌, ◌-◌, ◌≤◌, ◌<◌, ◌⊎◌, ◌≢◌, inl, inr, Bool-cases, String, false, Option, none, some, List,
  ◌∷◌, ◌≡◌, arith, ◌==◌, string_eq, if◌then◌else◌, ltb,
}
use ai_trans_clips_tts.Prelude.Dict.{get, get-put_self, get-pop, get-pop_self}
use ai_trans_clips_tts.Pipeline.Jobs.{
  Job, JobInput, Field, Store, job_ttl, is_expired, choose_id, new_job, setattrs, create_job,
  get_job, expire, remove_job, update_job, update_found, unlink_file,
}

abbrev pub keep_fresh : ℕ → Option Job → Option Job
keep_fresh now none = none
keep_fresh now (some job) = if is_expired now job then none else some job

pub get_job-fresh :
    (now : ℕ) (i : String) (s : Store) → (get_job now i s).0 ≡ keep_fresh now (get s.jobs i)
unfolding get_job
get_job-fresh now i s = ground arith

-- A job with an output file is given out until its time to live has passed since its last update,
-- and the store is left as it was. After that it is gone with its listeners, and the file is deleted.
pub get_job_exact :
    (now : ℕ) (i path : String) (s : Store) (job : Job)
    → get s.jobs i ≡ some job
    → job.file_path ≡ some path
    → path ≢ ""
    → (now ≤ job.updated_at + job_ttl) × (get_job now i s ≡ (some job, s))
      ⊎ (job.updated_at + job_ttl < now)
        × ((get_job now i s).0 ≡ none)
        × (get (get_job now i s).1.jobs i ≡ none)
        × (get (get_job now i s).1.listeners i ≡ none)
        × ((get_job now i s).1.unlinked ≡ path ∷ s.unlinked)
unfolding get_job expire remove_job is_expired unlink_file
get_job_exact now i path s job found has_file nonempty =
    elim (Bool-cases (ltb job_ttl (now - job.updated_at))) [
      | inr alive ↦ inl (ground arith, ground arith)
      | inl late ↦ inr (
        ground arith,
        ground arith,
        ground (arith, get-pop_self s.jobs i),
        ground (arith, get-pop_self s.listeners i),
        ground (arith, string_eq.eqb_iff path "", nonempty),
      )
    ]

-- Looking up one job neither changes nor drops another.
pub get_job_other :
    (now : ℕ) (i j : String) (s : Store)
    → (i == j) ≡ false
    → get (get_job now i s).1.jobs j ≡ get s.jobs j
unfolding get_job expire remove_job
get_job_other now i j s other = ground (arith, get-pop s.jobs i j)

-- A job that was created is found until its time to live has passed, under the id that was chosen.
pub get_job-create_job :
    (now later : ℕ) (fresh : String) (input : JobInput) (s : Store)
    → later ≤ now + job_ttl
    → (get_job later (choose_id input.job_id fresh) (create_job now fresh input s).1).0
      ≡ some (create_job now fresh input s).0
unfolding get_job create_job expire is_expired new_job
get_job-create_job now later fresh input s h = ground (
  arith,
  get-put_self s.jobs (choose_id input.job_id fresh)
      (new_job now (choose_id input.job_id fresh) input),
)

-- What an update of a job that is there sets is what a look-up within the time to live from then
-- finds: the update has renewed the time to live.
pub get_job-update_job :
    (now later : ℕ) (i : String) (fields : List Field) (s : Store) (job : Job)
    → get s.jobs i ≡ some job
    → later ≤ now + job_ttl
    → (get_job later i (update_job now i fields s).1).0
      ≡ some (record (setattrs fields job) { updated_at = now })
unfolding get_job update_job update_found expire is_expired
get_job-update_job now later i fields s job found h =
    ground (arith, get-put_self s.jobs i (record (setattrs fields job) { updated_at = now }))
