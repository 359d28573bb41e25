-- ===== src/Security/Rejections.antt =====
-- What `verify` of the workers' security modules accepts, and what a rejected request leaves behind.
use ai_trans_clips_tts.Prelude.{
  ℕ, ◌*◌, ◌≤◌, true, false, some, List, [], ◌∷◌, ◌≡◌, ◌≢◌, refl, subst, arith, nat_eq, list_eq, ltb,
  le→ltb,
}
use ai_trans_clips_tts.Prelude.Int.{ℤ}
use ai_trans_clips_tts.Prelude.Dict.{Dict, get}
use ai_trans_clips_tts.Prelude.Text.{Text, lower, is_ascii, parse_int}
use ai_trans_clips_tts.Security.{
  Result, ok, err, Rejection, replayed, Request, Verifier, Signed, distance, compare_digest,
  canonical_string, signed_headers, authenticate, admit, check_request, is_unset, verify,
}

module _ (sha256_hex : List ℕ → Text) (hmac_hex : Text → Text → Text) where
  admit_rejects :
      (ttl now : ℕ) (r : Result Text) (seen : Dict Text ℕ) (e : Rejection)
      → (admit ttl now r seen).0 ≡ err e
      → e ≢ replayed
      → (admit ttl now r seen).1 ≡ seen
  admit_rejects ttl now (err x) seen e h other = unfold admit in refl
  admit_rejects ttl now (ok n) seen e h other = absurd (unfold admit in ground (arith, other))

  -- A request that is turned away for any reason but its nonce has left the nonces as they were: no
  -- caller without a valid signature uses up a nonce, or even has an old one forgotten.
  pub verify_rejected :
      (v : Verifier) (r : Request) (now : ℕ) (seen : Dict Text ℕ) (e : Rejection)
      → (verify sha256_hex hmac_hex v r now seen).0 ≡ err e
      → e ≢ replayed
      → (verify sha256_hex hmac_hex v r now seen).1 ≡ seen
  unfolding verify
  verify_rejected v r now seen e =
      admit_rejects v.nonce_ttl now (check_request sha256_hex hmac_hex v r now) seen e

  -- A request that some configured key has signed, over its own body, within the allowed skew.
  pub record IsGenuine (v : Verifier) (r : Request) (now : ℕ) (s : Signed) : Type 0 where
    pub present : signed_headers v.names r.headers ≡ ok s
    pub secret : Text
    pub known : get v.keys s.key_id ≡ some secret
    pub request_time : ℤ
    pub parsed : parse_int s.timestamp ≡ some request_time
    pub close : distance now request_time ≤ v.max_skew * 1000
    pub same_body : sha256_hex r.body ≡ lower s.content_sha256
    pub signed :
        hmac_hex secret
          (canonical_string r.method r.path_and_query s.timestamp s.nonce s.content_sha256)
        ≡ lower s.signature

  compare_digest_eq : (a b : Text) → compare_digest a b ≡ ok true → a ≡ b
  unfolding compare_digest
  compare_digest_eq a b h = ground (arith, (list_eq {A = ℕ}).eqb_iff a b)

  authenticate_steps :
      (v : Verifier) (r : Request) (now : ℕ) (s : Signed) (secret : Text) (at : ℤ)
      → get v.keys s.key_id ≡ some secret
      → parse_int s.timestamp ≡ some at
      → ltb (v.max_skew * 1000) (distance now at) ≡ false
      → compare_digest (sha256_hex r.body) (lower s.content_sha256) ≡ ok true
      → compare_digest
          (hmac_hex secret
            (canonical_string r.method r.path_and_query s.timestamp s.nonce s.content_sha256))
          (lower s.signature)
        ≡ ok true
      → authenticate sha256_hex hmac_hex v r now s ≡ ok s.nonce
  unfolding authenticate
  authenticate_steps v r now s secret at known parsed in_time body signature = ground arith

  compare_digest_self : (a b : Text) → is_ascii a ≡ true → a ≡ b → compare_digest a b ≡ ok true
  unfolding compare_digest
  compare_digest_self a b plain e =
      subst (λ (c : Text). compare_digest a c ≡ ok true) e
        (ground (arith, plain, (list_eq {A = ℕ}).eqb_iff a a))

  pub is_set :
      (keys : Dict Text Text) (k secret : Text) → get keys k ≡ some secret → is_unset keys ≡ false
  unfolding get
  is_set [] k secret h = cc
  is_set (x ∷ keys) k secret h = refl

  -- The digests are hexadecimal texts.
  module _ (plain_sha256 : (body : List ℕ) → is_ascii (sha256_hex body) ≡ true)
      (plain_hmac : (secret text : Text) → is_ascii (hmac_hex secret text) ≡ true) where
    pub authenticate_ok :
        (v : Verifier) (r : Request) (now : ℕ) (s : Signed)
        → IsGenuine v r now s
        → authenticate sha256_hex hmac_hex v r now s ≡ ok s.nonce
    authenticate_ok v r now s g =
        let canonical =
          canonical_string r.method r.path_and_query s.timestamp s.nonce s.content_sha256 in
        let in_time = le→ltb (v.max_skew * 1000) (distance now g.request_time) g.close in
        let body =
          compare_digest_self (sha256_hex r.body) (lower s.content_sha256) (plain_sha256 r.body)
            g.same_body in
        let signature =
          compare_digest_self (hmac_hex g.secret canonical) (lower s.signature)
            (plain_hmac g.secret canonical) g.signed in
        authenticate_steps v r now s g.secret g.request_time g.known g.parsed in_time body signature
