-- ===== src/Pipeline/Speech.antt =====
-- pipeline-worker/tts.py: the client of the TTS worker, which signs its requests. The server is a
-- parameter, which answers the n-th request; the clocks and the random texts are read by the same
-- number. Times of the monotonic clock are milliseconds. Retries and the circuit breaker round
-- `_call_tts`, and the parallel calls for all segments, are left out.
pub mod Jobs
pub mod Signing
pub mod Polling
pub mod Reuse
use ai_trans_clips_tts.Prelude.{
  ℕ, zero, suc, ◌+◌, Bool, true, false, ◌||◌, Option, none, some, List, [], ◌∷◌, ◌++◌,
  if◌then◌else◌, ltb, leb, take, any, ◌==◌, nat_eq, list_eq, option_eq,
}
use ai_trans_clips_tts.Prelude.Dict.{Dict, get, put}
use ai_trans_clips_tts.Prelude.Text.{Text, codes, upper, contains, show}
use ai_trans_clips_tts.Security.{Request, canonical_string}
use ai_trans_clips_tts.Pipeline.Errors.{
  permanent, transient, pipeline_error, Result, ok, raised, ◌>>=◌,
}
use ai_trans_clips_tts.Pipeline.Cache.{Limits, Cache, get_cache, put_cache}

unfoldable pub tts_failed : Text
tts_failed = codes "TTS_FAILED"

abbrev first_key : Dict Text Text → Text × Text
first_key [] = ([], [])
first_key ((k, v) ∷ keys) = (k, v)

abbrev preferred : Dict Text Text → Option Text → Text × Text
preferred keys none = first_key keys
preferred keys (some secret) = (codes "pipeline-key-1", secret)

-- `_signing_key`, on the dictionary that HMAC_KEYS_JSON holds, or an empty one
unfoldable pub signing_key : Dict Text Text → Text × Text
signing_key keys = preferred keys (get keys (codes "pipeline-key-1"))

-- What `_hmac_headers` reads: the keys, the digests, and at the n-th request the time in seconds and
-- two random texts.
pub record Signer : Type 0 where
  pub keys : Dict Text Text
  pub sha256_hex : List ℕ → Text
  pub hmac_hex : Text → Text → Text
  pub wall_clock : ℕ → ℕ
  pub nonce : ℕ → Text
  pub request_id : ℕ → Text

-- The dictionary of a request that is signed with `secret`.
unfoldable pub signed_dict : Signer → ℕ → Text → Text → List ℕ → Text → Text → Dict Text Text
unfolding canonical_string show
signed_dict signer n method path_and_query body key_id secret =
    let ts = show (signer.wall_clock n) in
    let bh = signer.sha256_hex body in
    let canon = canonical_string method path_and_query ts (signer.nonce n) bh in
    (codes "X-TTS-Key-Id", key_id)
    ∷ (codes "X-TTS-Timestamp", ts)
    ∷ (codes "X-TTS-Nonce", signer.nonce n)
    ∷ (codes "X-TTS-Content-SHA256", bh)
    ∷ (codes "X-TTS-Signature", signer.hmac_hex secret canon)
    ∷ (codes "X-Request-Id", signer.request_id n)
    ∷ []

abbrev headers_of : Signer → ℕ → Text → Text → List ℕ → Text × Text → Dict Text Text
headers_of signer n method path_and_query body ([], secret) = []
headers_of signer n method path_and_query body (c ∷ key_id, secret) =
    signed_dict signer n method path_and_query body (c ∷ key_id) secret

-- `_hmac_headers`
unfoldable pub hmac_headers : Signer → ℕ → Text → Text → List ℕ → Dict Text Text
unfolding signing_key signed_dict
hmac_headers signer n method path_and_query body =
    headers_of signer n method path_and_query body (signing_key signer.keys)

unfoldable pub get_request : Signer → ℕ → Text → Request
unfolding hmac_headers
get_request signer n path = record {
  method = codes "GET";
  path_and_query = path;
  headers = hmac_headers signer n (codes "GET") path [];
  body = [];
}

unfoldable pub post_request : Signer → ℕ → Text → List ℕ → Request
unfolding hmac_headers
post_request signer n path body = record {
  method = codes "POST";
  path_and_query = path;
  headers =
      put (hmac_headers signer n (codes "POST") path body) (codes "Content-Type")
        (codes "application/json");
  body = body;
}

-- An answer: its code, its bytes, its text, and the fields that are read of its JSON.
pub record Response : Type 0 where
  pub status_code : ℕ
  pub content : List ℕ
  pub text : Text
  pub job_id : Option Text
  pub status : Option Text
  pub error : Option Text

-- `body_dict`, with the priority that a job gets
pub record Speech : Type 0 where
  pub text : Text
  pub language : Text
  pub voice : Option Text
  pub priority : Option ℕ

-- The signer, the server, the monotonic clock before the n-th request, `json.dumps` and the settings.
pub record Client : Type 0 where
  pub signer : Signer
  pub send : ℕ → Request → Response
  pub monotonic : ℕ → ℕ
  pub dumps : Speech → List ℕ
  pub async_jobs : Bool
  pub job_timeout : ℕ
  pub job_priority : ℕ

-- PIPELINE_TTS_JOB_TIMEOUT_SECONDS and PIPELINE_TTS_PRIORITY, by default
abbrev pub default_job_timeout : ℕ
default_job_timeout = 900000

abbrev pub default_job_priority : ℕ
default_job_priority = 500
