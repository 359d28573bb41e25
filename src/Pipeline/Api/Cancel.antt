-- ===== src/Pipeline/Api/Cancel.antt =====
-- The cancel route of pipeline-worker/main.py.
use ai_trans_clips_tts.Prelude.{
  ℕ, ◌⊎◌, inl, inr, Bool-cases, String, true, false, some, List, ◌≡◌, refl, arith, string_eq,
}
use ai_trans_clips_tts.Prelude.Dict.{get, get-put_self}
use ai_trans_clips_tts.Pipeline.Jobs.{
  Job, Field, Store, canceled, is_expired, setattrs, setattr, get_job, expire, to_dict, update_job,
  update_found,
}
use ai_trans_clips_tts.Pipeline.Api.{is_terminal, cancel_fields, cancel_found, cancel_job}

-- The job as the route leaves it.
abbrev pub canceled_at : ℕ → Job → Job
canceled_at now job = record job {
  status = canceled;
  error = some (record { code = "CANCELED"; message = "canceled by user" });
  updated_at = now;
}

pub get_job-found :
    (now : ℕ) (i : String) (s : Store) (job : Job)
    → get s.jobs i ≡ some job
    → is_expired now job ≡ false
    → get_job now i s ≡ (some job, s)
unfolding get_job expire
get_job-found now i s job found alive = rw (found, expire, alive) refl

not_expired_now : (now : ℕ) (job : Job) → job.updated_at ≡ now → is_expired now job ≡ false
unfolding is_expired
not_expired_now now job h = ground arith

pub get-update_job :
    (now : ℕ) (i : String) (fields : List Field) (s : Store) (job : Job)
    → get s.jobs i ≡ some job
    → get (update_job now i fields s).1.jobs i
      ≡ some (record (setattrs fields job) { updated_at = now })
unfolding update_job update_found
get-update_job now i fields s job found =
    rw (found, update_found)
      (get-put_self s.jobs i (record (setattrs fields job) { updated_at = now }))

get_job-canceled :
    (now : ℕ) (i : String) (s : Store) (job : Job)
    → get s.jobs i ≡ some job
    → get_job now i (update_job now i cancel_fields s).1
      ≡ (some (canceled_at now job), (update_job now i cancel_fields s).1)
unfolding setattrs setattr
get_job-canceled now i s job found =
    get_job-found now i (update_job now i cancel_fields s).1 (canceled_at now job)
      (get-update_job now i cancel_fields s job found)
      (not_expired_now now (canceled_at now job) refl)

-- Cancelling a job that is there and within its time to live: a job that has ended is answered as it
-- is, and the store is not touched; any other is canceled, with the code of the user's cancel and
-- every other field kept, in the store and in the answer.
pub cancel_job_exact :
    (now : ℕ) (i : String) (s : Store) (job : Job)
    → get s.jobs i ≡ some job
    → is_expired now job ≡ false
    → (is_terminal job.status ≡ true) × (cancel_job now i s ≡ (some (to_dict job), s))
      ⊎ (is_terminal job.status ≡ false)
        × ((cancel_job now i s).0 ≡ some (to_dict (canceled_at now job)))
        × (get (cancel_job now i s).1.jobs i ≡ some (canceled_at now job))
unfolding cancel_job setattrs setattr
cancel_job_exact now i s job found alive = elim (Bool-cases (is_terminal job.status)) [
  | inl terminal ↦
      inl (terminal, rw (get_job-found now i s job found alive, cancel_found, terminal) refl)
  | inr running ↦ inr (
    running,
    rw
        (
          get_job-found now i s job found alive,
          cancel_found,
          running,
          get_job-canceled now i s job found,
        )
        refl,
    rw
        (
          get_job-found now i s job found alive,
          cancel_found,
          running,
          get_job-canceled now i s job found,
        )
        (get-update_job now i cancel_fields s job found),
  )
]
