-- ===== src/Pipeline/Speech/Signing.antt =====
-- The requests that pipeline-worker/tts.py signs, before the middleware of the TTS worker,
-- app/core/security.py.
use ai_trans_clips_tts.Prelude.{
  ℕ, ◌*◌, ◌≤◌, ◌≡◌, refl, sym, true, some, List, [], ◌∷◌, list_eq, nat_eq,
}
use ai_trans_clips_tts.Prelude.Int.{pos}
use ai_trans_clips_tts.Prelude.Dict.{Dict, get, put}
use ai_trans_clips_tts.Prelude.Text.{Text, codes, lower, is_ascii, show}
use ai_trans_clips_tts.Prelude.Digits.{parse_int-show, show-IsFilled}
use ai_trans_clips_tts.Security.{
  ok, Request, Verifier, Signed, tts_headers, distance, check_and_record, signed_headers,
  canonical_string, is_filled, check_request_tts, verify_tts, admit,
}
use ai_trans_clips_tts.Security.Rejections.{IsGenuine, authenticate_ok, is_set}
use ai_trans_clips_tts.Pipeline.Speech.{Signer, signing_key, get_request, post_request}

show-is_filled : (n : ℕ) → is_filled (show n) ≡ true
show-is_filled n = let (c, s, e) = show-IsFilled n in rw e refl

-- A digest as `hexdigest` gives it.
abbrev pub IsHex : Text → Type 0
IsHex t = (is_ascii t ≡ true) × (lower t ≡ t) × (is_filled t ≡ true)

module _ (signer : Signer) (n : ℕ) where
  -- What the headers of the n-th request say.
  abbrev signed_by : Text → Text → Text → Text → List ℕ → Signed
  signed_by key_id secret method path body = record {
    key_id = key_id;
    timestamp = show (signer.wall_clock n);
    nonce = signer.nonce n;
    content_sha256 = signer.sha256_hex body;
    signature = signer.hmac_hex secret (
        canonical_string method path (show (signer.wall_clock n)) (signer.nonce n)
          (signer.sha256_hex body));
  }

  get_request-present :
      (key_id secret path : Text) (c : ℕ)
      → signing_key signer.keys ≡ (c ∷ key_id, secret)
      → signed_headers tts_headers (get_request signer n path).headers
        ≡ ok (signed_by (c ∷ key_id) secret (codes "GET") path [])
  unfolding get_request signed_headers tts_headers get
  get_request-present key_id secret path c key = rw key refl

  post_request-present :
      (key_id secret path : Text) (body : List ℕ) (c : ℕ)
      → signing_key signer.keys ≡ (c ∷ key_id, secret)
      → signed_headers tts_headers (post_request signer n path body).headers
        ≡ ok (signed_by (c ∷ key_id) secret (codes "POST") path body)
  unfolding post_request signed_headers tts_headers get put
  post_request-present key_id secret path body c key = rw key refl

module _ (signer : Signer) (plain_sha256 : (body : List ℕ) → IsHex (signer.sha256_hex body))
    (plain_hmac : (secret text : Text) → IsHex (signer.hmac_hex secret text)) where
  -- Headers that say who has signed the request, for a verifier that knows the key.
  accepted :
      (v : Verifier) (r : Request) (n now : ℕ) (seen : Dict Text ℕ) (secret key_id : Text) (c : ℕ)
      → signed_headers v.names r.headers
        ≡ ok (signed_by signer n (c ∷ key_id) secret r.method r.path_and_query r.body)
      → get v.keys (c ∷ key_id) ≡ some secret
      → distance now (pos (signer.wall_clock n)) ≤ v.max_skew * 1000
      → is_filled (signer.nonce n) ≡ true
      → (check_and_record v.nonce_ttl (signer.nonce n) now seen).0 ≡ true
      → (verify_tts signer.sha256_hex signer.hmac_hex v r now seen).0 ≡ ok tt
  accepted v r n now seen secret key_id c present known close filled new =
      let s = signed_by signer n (c ∷ key_id) secret r.method r.path_and_query r.body in
      let canonical =
        canonical_string r.method r.path_and_query s.timestamp s.nonce s.content_sha256 in
      let genuine : IsGenuine signer.sha256_hex signer.hmac_hex v r now s = record {
        present = present;
        secret = secret;
        known = known;
        request_time = pos (signer.wall_clock n);
        parsed = parse_int-show (signer.wall_clock n);
        close = close;
        same_body = sym (plain_sha256 r.body).1;
        signed = sym (plain_hmac secret canonical).1;
      } in
      let ok_s =
        authenticate_ok signer.sha256_hex signer.hmac_hex (λ body. (plain_sha256 body).0)
          (λ k t. (plain_hmac k t).0) v r now s genuine in
      let passed : check_request_tts signer.sha256_hex signer.hmac_hex v r now
          ≡ ok (signer.nonce n) =
        unfold check_request_tts in
        rw
          (
            is_set signer.sha256_hex signer.hmac_hex v.keys (c ∷ key_id) secret known,
            present,
            show-is_filled (signer.wall_clock n),
            filled,
            (plain_sha256 r.body).2,
            (plain_hmac secret canonical).2,
          )
          ok_s in
      unfold verify_tts in rw passed (unfold admit in rw new refl)

  -- Every request that the pipeline worker signs passes the middleware's check in the TTS worker, for
  -- the requests without a body and those with one: when that worker knows the signing key under the
  -- same secret, its clock differs by no more than the allowed skew, and the random nonce is new to
  -- it. The digests are taken to be hexadecimal, in small letters and not empty.
  pub verify_tts-hmac_headers :
      (v : Verifier) (n now : ℕ) (seen : Dict Text ℕ) (secret key_id path : Text) (c : ℕ)
      (body : List ℕ)
      → v.names ≡ tts_headers
      → signing_key signer.keys ≡ (c ∷ key_id, secret)
      → get v.keys (c ∷ key_id) ≡ some secret
      → distance now (pos (signer.wall_clock n)) ≤ v.max_skew * 1000
      → is_filled (signer.nonce n) ≡ true
      → (check_and_record v.nonce_ttl (signer.nonce n) now seen).0 ≡ true
      → ((verify_tts signer.sha256_hex signer.hmac_hex v (get_request signer n path) now seen).0
          ≡ ok tt)
        × ((verify_tts signer.sha256_hex signer.hmac_hex v
              (post_request signer n path body)
              now
              seen).0
            ≡ ok tt)
  unfolding get_request post_request
  verify_tts-hmac_headers v n now seen secret key_id path c body names key known close filled new =
      (
        accepted v (get_request signer n path) n now seen secret key_id c
            (rw names (get_request-present signer n key_id secret path c key)) known close filled
            new,
        accepted v (post_request signer n path body) n now seen secret key_id c
            (rw names (post_request-present signer n key_id secret path body c key)) known close
            filled new,
      )
