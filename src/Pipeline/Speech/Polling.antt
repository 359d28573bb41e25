-- ===== src/Pipeline/Speech/Polling.antt =====
-- The waiting of pipeline-worker/tts.py for a job ends.
use ai_trans_clips_tts.Prelude.{
  ℕ, zero, suc, ◌+◌, ◌<◌, ◌≡◌, refl, inl, inr, Option, none, some, List, ltb, arith, Bool-cases,
  lt→ltb,
}
use ai_trans_clips_tts.Prelude.Text.{Text}
use ai_trans_clips_tts.Pipeline.Errors.{Result, ok, raised}
use ai_trans_clips_tts.Pipeline.Speech.{Client, Speech}
use ai_trans_clips_tts.Pipeline.Speech.Jobs.{
  after_poll, after_created, or_sync, Poll, ended, completed, pending, poll_job, synthesize_via_job,
  synthesize,
}

after_poll-some :
    (p : Poll) (n : ℕ) (audio : Result (Option (List ℕ)) × ℕ)
    (rest : Option (Result (Option (List ℕ)) × ℕ))
    → ((r : Result (Option (List ℕ)) × ℕ) × (rest ≡ some r))
    → (r : Result (Option (List ℕ)) × ℕ) × (after_poll p n audio rest ≡ some r)
after_poll-some (ended result) n audio rest h = ((result, n), refl)
after_poll-some completed n audio rest h = (audio, refl)
after_poll-some pending n audio rest h = h

-- The monotonic clock moves on between two requests: the loop sleeps before each.
abbrev pub MovesOn : Client → Type 0
MovesOn client = (n : ℕ) → client.monotonic n < client.monotonic (n + 1)

module _ (client : Client) (moves_on : MovesOn client) where
  poll_job-some :
      (job_id : Text) (deadline fuel n : ℕ)
      → deadline < client.monotonic n + fuel
      → (r : Result (Option (List ℕ)) × ℕ) × (poll_job client job_id deadline (suc fuel) n ≡ some r)
  unfolding poll_job
  poll_job-some job_id deadline zero n h =
      rw (lt→ltb deadline (client.monotonic n) (omega arith)) (_, refl)
  poll_job-some job_id deadline (suc fuel) n h =
      elim (Bool-cases (ltb deadline (client.monotonic n))) [
        | inl late ↦ rw late (_, refl)
        | inr early ↦ rw early (
            after_poll-some _ (n + 1) _ (poll_job client job_id deadline (suc fuel) (n + 1))
              (poll_job-some job_id deadline fuel (n + 1) (omega (arith, moves_on n))))
      ]

  after_created-some :
      (created : Result (Option Text)) (n : ℕ)
      → (r : Result (Option (List ℕ)) × ℕ) × (after_created client
            (client.job_timeout + 2)
            created
            n
          ≡ some r)
  after_created-some (raised e) n = (_, refl)
  after_created-some (ok none) n = (_, refl)
  after_created-some (ok (some job_id)) n =
      let e : client.job_timeout + 2 ≡ suc (suc client.job_timeout) = omega arith in
      rw e (
        poll_job-some job_id (client.monotonic n + client.job_timeout) (suc client.job_timeout) n
          (omega arith))

  or_sync-some :
      (speech : Speech) (o : Option (Result (Option (List ℕ)) × ℕ))
      → ((r : Result (Option (List ℕ)) × ℕ) × (o ≡ some r))
      → (r : Result (List ℕ) × ℕ) × (or_sync client speech o ≡ some r)
  or_sync-some speech none (r, h) = cc h
  or_sync-some speech (some (raised e, n)) h = (_, refl)
  or_sync-some speech (some (ok none, n)) h = (_, refl)
  or_sync-some speech (some (ok (some audio), n)) h = (_, refl)

-- A speech is answered or fails, whatever the worker says: the loop ends with the job or with its
-- timeout, when each round takes a millisecond or more of the monotonic clock. As many rounds as the
-- timeout has milliseconds, and two, are enough.
pub synthesize_ends :
    (client : Client) (speech : Speech) (n : ℕ)
    → MovesOn client
    → (r : Result (List ℕ) × ℕ) × (synthesize client (client.job_timeout + 2) speech n ≡ some r)
unfolding synthesize synthesize_via_job
synthesize_ends client speech n moves_on = elim (Bool-cases client.async_jobs) [
  | inl jobs ↦
      rw jobs (or_sync-some client moves_on speech _ (after_created-some client moves_on _ (n + 1)))
  | inr none_of_them ↦ rw none_of_them (_, refl)
]
