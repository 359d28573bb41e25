-- ===== src/Security.antt =====
-- The request signing of the three workers: pipeline-worker/security.py, its copy
-- video-worker/security.py with other header names, and app/core/security.py. Texts are lists of
-- code points; a clock reading is a number of milliseconds, and the settings are in seconds. The
-- hash functions are parameters.
pub mod Nonces
pub mod Replay
pub mod Rejections
pub mod Middleware
use ai_trans_clips_tts.Prelude.{
  ℕ, suc, ◌+◌, ◌-◌, ◌*◌, Bool, true, false, not, ◌&&◌, Option, none, some, List, [], ◌∷◌, ◌++◌,
  HasEq, ◌==◌, nat_eq, list_eq, if◌then◌else◌, ltb, filter,
}
use ai_trans_clips_tts.Prelude.Int.{ℤ, pos, negsuc}
use ai_trans_clips_tts.Prelude.Dict.{Dict, get, put, has}
use ai_trans_clips_tts.Prelude.Text.{Text, codes, lower, upper, is_ascii, parse_int}

-- The messages of SignatureError, and the TypeError of `hmac.compare_digest` on text beyond ASCII.
pub data Rejection : Type 0 where
  not_configured missing_headers unknown_key invalid_timestamp outside_skew : Rejection
  body_mismatch signature_mismatch replayed type_error : Rejection

-- What a function that may raise returns.
pub data Result {ℓ} (A : Type ℓ) : Type ℓ where
  err : Rejection → Result A
  ok : A → Result A

-- The first check that raises ends the function.
infixl 8 ◌>>=◌ ◌>>◌
abbrev pub ◌>>=◌ {ℓ κ} : {A : Type ℓ} {B : Type κ} → Result A → (A → Result B) → Result B
err rejection >>= next = err rejection
ok value >>= next = next value

abbrev pub ◌>>◌ {ℓ} : {B : Type ℓ} → Result (Unit {0}) → Result B → Result B
check >> next = check >>= λ _. next

-- `if not test: raise SignatureError(…)`
abbrev pub require : Bool → Rejection → Result (Unit {0})
require true e = ok tt
require false e = err e

abbrev pub or_reject {ℓ} : {A : Type ℓ} → Option A → Rejection → Result A
or_reject none e = err e
or_reject (some a) e = ok a

-- The names of the five headers, which differ between the workers.
pub record HeaderNames : Type 0 where
  pub key_id : Text
  pub timestamp : Text
  pub nonce : Text
  pub content_sha256 : Text
  pub signature : Text

unfoldable pub pipeline_headers : HeaderNames
pipeline_headers = record {
  key_id = codes "X-Pipeline-Key-Id";
  timestamp = codes "X-Pipeline-Timestamp";
  nonce = codes "X-Pipeline-Nonce";
  content_sha256 = codes "X-Pipeline-Content-SHA256";
  signature = codes "X-Pipeline-Signature";
}

unfoldable pub video_headers : HeaderNames
video_headers = record {
  key_id = codes "X-Video-Key-Id";
  timestamp = codes "X-Video-Timestamp";
  nonce = codes "X-Video-Nonce";
  content_sha256 = codes "X-Video-Content-SHA256";
  signature = codes "X-Video-Signature";
}

unfoldable pub tts_headers : HeaderNames
tts_headers = record {
  key_id = codes "X-TTS-Key-Id";
  timestamp = codes "X-TTS-Timestamp";
  nonce = codes "X-TTS-Nonce";
  content_sha256 = codes "X-TTS-Content-SHA256";
  signature = codes "X-TTS-Signature";
}

pub record Request : Type 0 where
  pub method : Text
  pub path_and_query : Text
  pub headers : Dict Text Text
  pub body : List ℕ

-- `SignatureVerifier`, without the nonces that it has seen.
pub record Verifier : Type 0 where
  pub names : HeaderNames
  pub keys : Dict Text Text
  pub max_skew : ℕ
  pub nonce_ttl : ℕ

-- The strings joined by newlines.
unfoldable pub canonical_string : Text → Text → Text → Text → Text → Text
canonical_string method path_and_query timestamp nonce content_sha256 =
    upper method ++ (10 ∷ path_and_query ++ (10 ∷ timestamp ++ (10 ∷ nonce ++ 10 ∷ content_sha256)))

-- `_evict`: the nonces that are older than the time to live
unfoldable pub evict : ℕ → ℕ → Dict Text ℕ → Dict Text ℕ
evict ttl now seen = filter (λ (nonce, seen_at). not (ltb (seen_at + ttl * 1000) now)) seen

unfoldable pub check_and_record : ℕ → Text → ℕ → Dict Text ℕ → Bool × Dict Text ℕ
unfolding evict
check_and_record ttl nonce now seen =
    let kept = evict ttl now seen in
    if has kept nonce then (false, kept) else (true, put kept nonce now)

-- `abs(current_time - request_time)`
unfoldable pub distance : ℕ → ℤ → ℕ
distance now (pos t) = (now - t * 1000) + (t * 1000 - now)
distance now (negsuc t) = now + suc t * 1000

unfoldable pub compare_digest : Text → Text → Result Bool
compare_digest a b = if is_ascii a && is_ascii b then ok (a == b) else err type_error

-- The five headers of a request; the TTS worker also takes an empty one for missing.
pub record Signed : Type 0 where
  pub key_id : Text
  pub timestamp : Text
  pub nonce : Text
  pub content_sha256 : Text
  pub signature : Text

unfoldable pub signed_headers : HeaderNames → Dict Text Text → Result Signed
signed_headers names headers = do
  key_id ← or_reject (get headers names.key_id) missing_headers
  timestamp ← or_reject (get headers names.timestamp) missing_headers
  nonce ← or_reject (get headers names.nonce) missing_headers
  content_sha256 ← or_reject (get headers names.content_sha256) missing_headers
  signature ← or_reject (get headers names.signature) missing_headers
  ok (record {
    key_id = key_id;
    timestamp = timestamp;
    nonce = nonce;
    content_sha256 = content_sha256;
    signature = signature;
  })

-- The nonce is looked at last, so that only a signed request can use one up.
unfoldable pub admit : ℕ → ℕ → Result Text → Dict Text ℕ → Result (Unit {0}) × Dict Text ℕ
unfolding check_and_record
admit ttl now (err e) seen = (err e, seen)
admit ttl now (ok nonce) seen =
    let (fresh, seen') = check_and_record ttl nonce now seen in (require fresh replayed, seen')

abbrev pub is_unset : Dict Text Text → Bool
is_unset [] = true
is_unset (k ∷ ks) = false

abbrev pub is_filled : Text → Bool
is_filled [] = false
is_filled (c ∷ s) = true

module _ (sha256_hex : List ℕ → Text) (hmac_hex : Text → Text → Text) where
  -- The checks from the key to the signature, which read nothing of the nonces.
  unfoldable pub authenticate : Verifier → Request → ℕ → Signed → Result Text
  unfolding distance compare_digest
  authenticate v r now s = do
    secret ← or_reject (get v.keys s.key_id) unknown_key
    request_time ← or_reject (parse_int s.timestamp) invalid_timestamp
    require (not (ltb (v.max_skew * 1000) (distance now request_time))) outside_skew
    same_body ← compare_digest (sha256_hex r.body) (lower s.content_sha256)
    require same_body body_mismatch
    let canonical = canonical_string r.method r.path_and_query s.timestamp s.nonce s.content_sha256
    genuine ← compare_digest (hmac_hex secret canonical) (lower s.signature)
    require genuine signature_mismatch
    ok s.nonce

  -- Everything before the nonce. A header that is not there is missing; the TTS worker's
  -- `not all([…])` takes an empty one for missing, too.
  unfoldable pub check_request : Verifier → Request → ℕ → Result Text
  unfolding signed_headers authenticate
  check_request v r now = do
    require (not (is_unset v.keys)) not_configured
    s ← signed_headers v.names r.headers
    authenticate v r now s

  unfoldable pub check_request_tts : Verifier → Request → ℕ → Result Text
  unfolding signed_headers authenticate
  check_request_tts v r now = do
    require (not (is_unset v.keys)) not_configured
    s ← signed_headers v.names r.headers
    require (is_filled s.key_id) missing_headers
    require (is_filled s.timestamp) missing_headers
    require (is_filled s.nonce) missing_headers
    require (is_filled s.content_sha256) missing_headers
    require (is_filled s.signature) missing_headers
    authenticate v r now s

  -- `verify` of the pipeline worker, and word for word of the video worker
  unfoldable pub verify : Verifier → Request → ℕ → Dict Text ℕ → Result (Unit {0}) × Dict Text ℕ
  unfolding check_request admit
  verify v r now seen = admit v.nonce_ttl now (check_request v r now) seen

  -- `verify` of the TTS worker
  unfoldable pub verify_tts : Verifier → Request → ℕ → Dict Text ℕ → Result (Unit {0}) × Dict Text ℕ
  unfolding check_request_tts admit
  verify_tts v r now seen = admit v.nonce_ttl now (check_request_tts v r now) seen
