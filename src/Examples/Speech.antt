-- ===== src/Examples/Speech.antt =====
-- Small inputs for the model of pipeline-worker/tts.py.
use ai_trans_clips_tts.Prelude.{
  ℕ, zero, suc, ◌+◌, ◌*◌, ◌≤◌, ◌≡◌, refl, arith, true, Option, none, some, List, [], ◌∷◌, ◌++◌,
  list_eq, nat_eq,
}
use ai_trans_clips_tts.Prelude.Int.{pos}
use ai_trans_clips_tts.Prelude.Dict.{get}
use ai_trans_clips_tts.Prelude.Text.{Text, codes, is_ascii, lower}
use ai_trans_clips_tts.Security.{
  ok as accepted, Verifier, tts_headers, verify_tts, check_and_record, distance,
}
use ai_trans_clips_tts.Pipeline.Errors.{Result, ok}
use ai_trans_clips_tts.Pipeline.Cache.{Limits, empty_cache, get_cache}
use ai_trans_clips_tts.Pipeline.Speech.{
  Signer, Client, Response, Speech, get_request, post_request, signing_key, default_job_priority,
}
use ai_trans_clips_tts.Pipeline.Speech.Jobs.{synthesize}
use ai_trans_clips_tts.Pipeline.Speech.Polling.{synthesize_ends}
use ai_trans_clips_tts.Pipeline.Speech.Signing.{IsHex, verify_tts-hmac_headers}
use ai_trans_clips_tts.Pipeline.Speech.Reuse.{key_of}

abbrev signer : Signer
signer = record {
  keys = (codes "pipeline-key-1", codes "secret") ∷ [];
  sha256_hex = λ body. codes "ab";
  hmac_hex = λ secret text. codes "cd";
  wall_clock = λ n. 1700 + n;
  nonce = λ n. codes "n";
  request_id = λ n. codes "r";
}

abbrev verifier : Verifier
verifier = record {
  names = tts_headers;
  keys = (codes "pipeline-key-1", codes "secret") ∷ [];
  max_skew = 300;
  nonce_ttl = 600;
}

new_nonce : (check_and_record 600 (codes "n") 1701000 []).0 ≡ true
unfolding check_and_record get
new_nonce = refl

known_key : get verifier.keys (codes "pipeline-key-1") ≡ some (codes "secret")
unfolding get
known_key = refl

own_key : signing_key signer.keys ≡ (codes "pipeline-key-1", codes "secret")
unfolding signing_key get
own_key = refl

in_time : distance 1701000 (pos 1700) ≤ 300 * 1000
unfolding distance
in_time = omega arith

IsHex-ab : IsHex (codes "ab")
unfolding is_ascii lower
IsHex-ab = (refl, refl, refl)

IsHex-cd : IsHex (codes "cd")
unfolding is_ascii lower
IsHex-cd = (refl, refl, refl)

verify_tts-hmac_headers_example :
    ((verify_tts signer.sha256_hex signer.hmac_hex verifier
        (get_request signer 0 (codes "/v1/tts/jobs/j"))
        1701000
        []).0
      ≡ accepted tt)
    × ((verify_tts signer.sha256_hex signer.hmac_hex verifier
          (post_request signer 0 (codes "/v1/tts/jobs/j") (1 ∷ []))
          1701000
          []).0
        ≡ accepted tt)
verify_tts-hmac_headers_example =
    verify_tts-hmac_headers signer (λ body. IsHex-ab) (λ secret text. IsHex-cd) verifier 0 1701000
      [] (codes "secret") (codes "ipeline-key-1") (codes "/v1/tts/jobs/j") b'p' (1 ∷ []) refl
      own_key known_key in_time refl new_nonce

-- A job that is created, polled twice and read.
abbrev reply : ℕ → Response
reply zero = record {
  status_code = 202;
  content = [];
  text = [];
  job_id = some (codes "j");
  status = none;
  error = none;
}
reply (suc zero) = record {
  status_code = 200;
  content = [];
  text = [];
  job_id = none;
  status = some (codes "running");
  error = none;
}
reply (suc (suc zero)) = record {
  status_code = 200;
  content = [];
  text = [];
  job_id = none;
  status = some (codes "completed");
  error = none;
}
reply (suc (suc (suc n))) = record {
  status_code = 200;
  content = 5 ∷ 6 ∷ [];
  text = [];
  job_id = none;
  status = none;
  error = none;
}

abbrev client : Client
client = record {
  signer = signer;
  send = λ n request. reply n;
  monotonic = λ n. n * 500;
  dumps = λ speech. [];
  async_jobs = true;
  job_timeout = 2000;
  job_priority = default_job_priority;
}

abbrev speech : Speech
speech = record { text = codes "xin chao"; language = codes "vi"; voice = none; priority = none }

synthesize_test : synthesize client 10 speech 0 ≡ some (ok (5 ∷ 6 ∷ []), 4)
unfolding synthesize
synthesize_test = refl

synthesize_ends_example :
    (r : Result (List ℕ) × ℕ) × (synthesize client (2000 + 2) speech 0 ≡ some r)
synthesize_ends_example = synthesize_ends client speech 0 (λ n. omega arith)

abbrev roomy : Limits
roomy = record { ttl = 100; max_files = 2; max_bytes = 10 }

abbrev name_of : Text → Text → Option Text → Text → Text
name_of text language voice engine = text ++ language ++ engine

missed :
    get_cache roomy 0 (key_of client roomy name_of (λ n. n) speech) empty_cache
    ≡ (none, record empty_cache { misses = 1 })
unfolding get_cache get
missed = refl
