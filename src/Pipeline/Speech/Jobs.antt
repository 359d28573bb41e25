-- ===== src/Pipeline/Speech/Jobs.antt =====
-- The speech of the TTS worker in pipeline-worker/tts.py: by one request, or by a job that is polled.
use ai_trans_clips_tts.Prelude.{
  ℕ, zero, suc, ◌+◌, Bool, ◌||◌, Option, none, some, List, [], ◌∷◌, ◌++◌, if◌then◌else◌, ltb, leb,
  take, ◌==◌, nat_eq, list_eq, option_eq,
}
use ai_trans_clips_tts.Prelude.Text.{Text, codes, contains, show}
use ai_trans_clips_tts.Pipeline.Errors.{permanent, transient, pipeline_error, Result, ok, raised}
use ai_trans_clips_tts.Pipeline.Speech.{
  tts_failed, Response, Speech, Client, get_request, post_request,
}

abbrev failure {ℓ} : {A : Type ℓ} → Text → Result A
failure message = raised (pipeline_error transient tts_failed message)

abbrev refusal {ℓ} : {A : Type ℓ} → Text → Result A
refusal message = raised (pipeline_error permanent tts_failed message)

-- The end of `_synthesize_sync`, on its answer
unfoldable pub read_sync : Response → Result (List ℕ)
unfolding tts_failed
read_sync resp =
    if resp.status_code == 400
    then refusal (codes "TTS 400: " ++ take 500 resp.text)
    else if resp.status_code == 429
    then failure (codes "TTS 429 rate limited: " ++ take 200 resp.text)
    else if leb 500 resp.status_code
    then failure (codes "TTS " ++ show resp.status_code ++ codes ": " ++ take 500 resp.text)
    else if resp.status_code == 200
    then ok resp.content
    else failure (codes "TTS " ++ show resp.status_code ++ codes ": " ++ take 300 resp.text)

-- `_synthesize_sync`, with the number of the next request
unfoldable pub synthesize_sync : Client → Speech → ℕ → Result (List ℕ) × ℕ
unfolding read_sync post_request
synthesize_sync client speech n = (
  read_sync (client.send n (post_request client.signer n (codes "/v1/tts") (client.dumps speech))),
  n + 1,
)

abbrev is_missing : ℕ → Bool
is_missing status_code = status_code == 404 || status_code == 405

abbrev text_or : Text → Option Text → Text
text_or default none = default
text_or default (some []) = default
text_or default (some (c ∷ s)) = c ∷ s

-- A failed job, by its message
unfoldable pub job_failed : Option Text → Result (Option (List ℕ))
unfolding tts_failed contains
job_failed error =
    let message = text_or (codes "TTS job failed") error in
    if contains (codes "exceeds the") message || contains (codes "not valid") message
    then refusal message
    else failure message

-- The audio of a completed job
unfoldable pub read_audio : Response → Result (Option (List ℕ))
unfolding tts_failed
read_audio audio =
    if leb 500 audio.status_code
    then failure (codes "TTS job audio " ++ show audio.status_code)
    else if audio.status_code == 200
    then ok (some audio.content)
    else failure
        (codes "TTS job audio " ++ show audio.status_code ++ codes ": " ++ take 200 audio.text)

-- What one poll says: an end, with None for a worker without the endpoints; that the audio is there;
-- or nothing yet.
pub data Poll : Type 0 where
  ended : Result (Option (List ℕ)) → Poll
  completed pending : Poll

unfoldable pub read_poll : Response → Poll
unfolding job_failed tts_failed
read_poll poll =
    if is_missing poll.status_code
    then ended (ok none)
    else if leb 500 poll.status_code
    then ended (failure (codes "TTS job poll " ++ show poll.status_code))
    else if poll.status_code == 200
    then if poll.status == some (codes "failed")
      then ended (job_failed poll.error)
      else if poll.status == some (codes "completed")
      then completed
      else pending
    else ended (
        failure
          (codes "TTS job poll " ++ show poll.status_code ++ codes ": " ++ take 200 poll.text))

abbrev pub after_poll :
    Poll
    → ℕ
    → Result (Option (List ℕ)) × ℕ
    → Option (Result (Option (List ℕ)) × ℕ)
    → Option (Result (Option (List ℕ)) × ℕ)
after_poll (ended result) n audio rest = some (result, n)
after_poll completed n audio rest = some audio
after_poll pending n audio rest = rest

-- The `while True` loop, on fuel; None says that the fuel ran out.
module _ (client : Client) (job_id : Text) (deadline : ℕ) where
  abbrev status_path : Text
  status_path = codes "/v1/tts/jobs/" ++ job_id

  unfoldable pub poll_job : ℕ → ℕ → Option (Result (Option (List ℕ)) × ℕ)
  unfolding read_poll read_audio get_request
  poll_job zero n = none
  poll_job (suc fuel) n =
      let poll = client.send n (get_request client.signer n status_path) in
      let audio =
        client.send (n + 1) (get_request client.signer (n + 1) (status_path ++ codes "/audio")) in
      let rest = poll_job fuel (n + 1) in
      if ltb deadline (client.monotonic n)
      then some (failure (codes "TTS job " ++ job_id ++ codes " timed out"), n)
      else after_poll (read_poll poll) (n + 1) (read_audio audio, n + 2) rest

-- The checks on the answer to a new job
unfoldable pub read_created : Response → Result (Option Text)
unfolding tts_failed
read_created resp =
    if is_missing resp.status_code
    then ok none
    else if resp.status_code == 400
    then refusal (codes "TTS job 400: " ++ take 500 resp.text)
    else if resp.status_code == 200 || resp.status_code == 202
    then elim resp.job_id [
      | none ↦ failure (codes "TTS job response had no job_id")
      | some id ↦ elim id [
        | [] ↦ failure (codes "TTS job response had no job_id")
        | c ∷ s ↦ ok (some (c ∷ s))
      ]
    ]
    else failure (codes "TTS job " ++ show resp.status_code ++ codes ": " ++ take 300 resp.text)

abbrev pub after_created :
    Client → ℕ → Result (Option Text) → ℕ → Option (Result (Option (List ℕ)) × ℕ)
after_created client fuel (raised e) n = some (raised e, n)
after_created client fuel (ok none) n = some (ok none, n)
after_created client fuel (ok (some job_id)) n =
    poll_job client job_id (client.monotonic n + client.job_timeout) fuel n

-- `_synthesize_via_job`; an answer without audio stands for `_JobsUnsupported`.
unfoldable pub synthesize_via_job : Client → ℕ → Speech → ℕ → Option (Result (Option (List ℕ)) × ℕ)
unfolding read_created poll_job post_request
synthesize_via_job client fuel speech n =
    let body = client.dumps (record speech { priority = some client.job_priority }) in
    after_created client fuel
      (read_created (client.send n (post_request client.signer n (codes "/v1/tts/jobs") body)))
      (n + 1)

abbrev pub or_sync :
    Client → Speech → Option (Result (Option (List ℕ)) × ℕ) → Option (Result (List ℕ) × ℕ)
or_sync client speech none = none
or_sync client speech (some (raised e, n)) = some (raised e, n)
or_sync client speech (some (ok none, n)) = some (synthesize_sync client speech n)
or_sync client speech (some (ok (some audio), n)) = some (ok audio, n)

-- `_synthesize`
unfoldable pub synthesize : Client → ℕ → Speech → ℕ → Option (Result (List ℕ) × ℕ)
unfolding synthesize_via_job synthesize_sync
synthesize client fuel speech n =
    if client.async_jobs
    then or_sync client speech (synthesize_via_job client fuel speech n)
    else some (synthesize_sync client speech n)
