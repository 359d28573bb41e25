-- ===== src/Security/Replay.antt =====
-- Replay protection of the workers' `verify`: one signed request is served once.
use ai_trans_clips_tts.Prelude.{
  ℕ, ◌+◌, ◌*◌, ◌≤◌, true, not, some, List, [], ◌∷◌, ◌≡◌, ◌≢◌, refl, sym, ◌∙◌, inl, inr, arith,
  nat_eq, list_eq, ap, All, All-weaken, Option-cases,
}
use mathlib.Core.Bool.{false≢true}
use ai_trans_clips_tts.Prelude.Int.{ℤ, pos, negsuc}
use ai_trans_clips_tts.Prelude.Dict.{Dict, get}
use ai_trans_clips_tts.Prelude.Text.{Text, parse_int}
use ai_trans_clips_tts.Security.{
  Result, ok, err, Request, Verifier, Signed, HeaderNames, ◌>>=◌, require, check_and_record,
  distance, signed_headers, authenticate, admit, check_request, is_unset, not_configured, verify,
}
use ai_trans_clips_tts.Security.Nonces.{
  check_and_record_stored, check_and_record_keeps, check_and_record_refuses,
}

admit_keeps :
    (ttl now : ℕ) (r : Result Text) (seen : Dict Text ℕ) (n : Text) (t : ℕ)
    → get seen n ≡ some t
    → now ≤ t + ttl * 1000
    → get (admit ttl now r seen).1 n ≡ some t
admit_keeps ttl now (err e) seen n t h live = unfold admit in h
admit_keeps ttl now (ok m) seen n t h live =
    unfold admit in check_and_record_keeps ttl now seen m n t h live

-- An accepted request has a nonce that was new, and is remembered now.
pub admit_accepts :
    (ttl now : ℕ) (r : Result Text) (seen : Dict Text ℕ)
    → (admit ttl now r seen).0 ≡ ok tt
    → (n : Text) × (r ≡ ok n)
      × ((check_and_record ttl n now seen).0 ≡ true)
      × (get (admit ttl now r seen).1 n ≡ some now)
admit_accepts ttl now (err e) seen h = absurd (unfold admit in cc)
admit_accepts ttl now (ok n) seen h =
    let new : (check_and_record ttl n now seen).0 ≡ true = unfold admit in ground arith in
    (n, refl, new, unfold admit in check_and_record_stored ttl now seen n new)

-- A check that came out well was passed by its first step.
bind-eq-ok {ℓ κ} :
    {A : Type ℓ} {B : Type κ} (check : Result A) (next : A → Result B) {value : B}
    → (check >>= next) ≡ ok value
    → (found : A) × (check ≡ ok found) × (next found ≡ ok value)
bind-eq-ok (err rejection) next passed = cc
bind-eq-ok (ok found) next passed = (found, refl, passed)

signed_headers_found :
    (names : HeaderNames) (headers : Dict Text Text) (s : Signed)
    → signed_headers names headers ≡ ok s
    → (get headers names.nonce ≡ some s.nonce) × (get headers names.timestamp ≡ some s.timestamp)
unfolding signed_headers
signed_headers_found names headers s h = ground arith

distance_close :
    (t1 t2 bound : ℕ) (at : ℤ)
    → distance t1 at ≤ bound
    → distance t2 at ≤ bound
    → t2 ≤ t1 + 2 * bound
unfolding distance
distance_close t1 t2 bound (pos n) h k = omega arith
distance_close t1 t2 bound (negsuc n) h k = omega arith

module _ (sha256_hex : List ℕ → Text) (hmac_hex : Text → Text → Text) where
  -- What an authenticated request tells of its headers.
  pub authenticate_time :
      (v : Verifier) (r : Request) (now : ℕ) (s : Signed) (n : Text)
      → authenticate sha256_hex hmac_hex v r now s ≡ ok n
      → (n ≡ s.nonce)
        × ((at : ℤ) × (parse_int s.timestamp ≡ some at) × (distance now at ≤ v.max_skew * 1000))
  unfolding authenticate
  authenticate_time v r now s n h = elim (Option-cases (parse_int s.timestamp)) [
    | inl bad ↦ absurd (ground arith)
    | inr (at, parsed) ↦ (ground arith, (at, parsed, ground arith))
  ]

  -- The state after the requests of a history, each at the time of its clock.
  pub run_requests : Verifier → List (ℕ × Request) → Dict Text ℕ → Dict Text ℕ
  run_requests v [] seen = seen
  run_requests v ((now, r) ∷ rest) seen =
      run_requests v rest (verify sha256_hex hmac_hex v r now seen).1

  run_requests_keeps :
      (v : Verifier) (history : List (ℕ × Request)) (seen : Dict Text ℕ) (n : Text) (t : ℕ)
      → get seen n ≡ some t
      → All (λ c. c.0 ≤ t + v.nonce_ttl * 1000) history
      → get (run_requests v history seen) n ≡ some t
  unfolding run_requests
  run_requests_keeps v [] seen n t h live = h
  run_requests_keeps v ((now, r) ∷ rest) seen n t h live =
      run_requests_keeps v rest (verify sha256_hex hmac_hex v r now seen).1 n t
        (unfold verify in
          admit_keeps v.nonce_ttl now (check_request sha256_hex hmac_hex v r now) seen n t h live.0)
        live.1

  -- What `verify` has found out when it accepts.
  record Accepted (v : Verifier) (r : Request) (now : ℕ) (seen : Dict Text ℕ) : Type 0 where
    nonce : Text
    timestamp : Text
    request_time : ℤ
    has_nonce : get r.headers v.names.nonce ≡ some nonce
    has_timestamp : get r.headers v.names.timestamp ≡ some timestamp
    parsed : parse_int timestamp ≡ some request_time
    close : distance now request_time ≤ v.max_skew * 1000
    new : (check_and_record v.nonce_ttl nonce now seen).0 ≡ true
    stored : get (verify sha256_hex hmac_hex v r now seen).1 nonce ≡ some now

  pub check_request_found :
      (v : Verifier) (r : Request) (now : ℕ) (n : Text)
      → check_request sha256_hex hmac_hex v r now ≡ ok n
      → (s : Signed) × (signed_headers v.names r.headers ≡ ok s)
        × (authenticate sha256_hex hmac_hex v r now s ≡ ok n)
  unfolding check_request
  check_request_found v r now n h =
      let (u, configured, checked) =
        bind-eq-ok (require (not (is_unset v.keys)) not_configured) _ h in
      bind-eq-ok (signed_headers v.names r.headers) _ checked

  verify-Accepted :
      (v : Verifier) (r : Request) (now : ℕ) (seen : Dict Text ℕ)
      → (verify sha256_hex hmac_hex v r now seen).0 ≡ ok tt
      → Accepted v r now seen
  verify-Accepted v r now seen h =
      let checked = check_request sha256_hex hmac_hex v r now in
      let (n, passed, new, stored) =
        admit_accepts v.nonce_ttl now checked seen (unfold verify in h) in
      let (s, headers, signed) = check_request_found v r now n passed in
      let (is_nonce, (at, parsed, close)) = authenticate_time v r now s n signed in
      let (has_nonce, has_timestamp) = signed_headers_found v.names r.headers s headers in
      record {
        nonce = n;
        timestamp = s.timestamp;
        request_time = at;
        has_nonce = rw is_nonce has_nonce;
        has_timestamp = has_timestamp;
        parsed = parsed;
        close = close;
        new = new;
        stored = unfold verify in stored;
      }

  -- If nonces are kept for twice the allowed skew, then a request that was accepted is never accepted
  -- again: whatever requests come between, and whenever it is sent again, under its nonce and time stamp.
  pub verify_once :
      (v : Verifier) (r again : Request) (first later : ℕ) (history : List (ℕ × Request))
      (seen : Dict Text ℕ)
      → 2 * v.max_skew ≤ v.nonce_ttl
      → get again.headers v.names.nonce ≡ get r.headers v.names.nonce
      → get again.headers v.names.timestamp ≡ get r.headers v.names.timestamp
      → All (λ c. c.0 ≤ later) history
      → (verify sha256_hex hmac_hex v r first seen).0 ≡ ok tt
      → (verify sha256_hex hmac_hex v again later
          (run_requests v history (verify sha256_hex hmac_hex v r first seen).1)).0
        ≢ ok tt
  verify_once v r again first later history seen ttl same_nonce same_time before accepted replay =
      let a = verify-Accepted v r first seen accepted in
      let seen' = run_requests v history (verify sha256_hex hmac_hex v r first seen).1 in
      let b = verify-Accepted v again later seen' replay in
      let time : b.timestamp ≡ a.timestamp = ground (arith, b.has_timestamp, a.has_timestamp) in
      let at : b.request_time ≡ a.request_time =
        ground (arith, b.parsed, a.parsed, ap (λ (x : Text). parse_int x) time) in
      let soon : later ≤ first + 2 * (v.max_skew * 1000) =
        distance_close first later (v.max_skew * 1000) a.request_time a.close (rw at at b.close) in
      let nonce : b.nonce ≡ a.nonce = ground (arith, b.has_nonce, a.has_nonce) in
      let kept : get seen' b.nonce ≡ some first = rw nonce (
        run_requests_keeps v history (verify sha256_hex hmac_hex v r first seen).1 a.nonce first
          a.stored
          (All-weaken (λ c. c.0 ≤ later) (λ c. c.0 ≤ first + v.nonce_ttl * 1000) history
            (λ c h. omega arith) before)) in
      false≢true (
        sym (check_and_record_refuses v.nonce_ttl later seen' b.nonce first kept (omega arith))
        ∙ b.new)
