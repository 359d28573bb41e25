-- ===== src/Security/Middleware/Gate.antt =====
-- What the middleware lets through to the routes, and what it reads of a body.
use ai_trans_clips_tts.Prelude.{
  ℕ, ◌≤◌, ◌<◌, ◌≡◌, refl, sym, ap, subst, ◌∙◌, ◌⊎◌, inl, inr, Bool, true, false, Option, none, some,
  List, [], ◌∷◌, ◌++◌, if◌then◌else◌, ltb, leb, length, length-append, arith, Bool-cases, ltb→lt,
  ltb→le, le→leb, leb→le,
}
use ai_trans_clips_tts.Prelude.Dict.{Dict}
use ai_trans_clips_tts.Prelude.Text.{Text}
use ai_trans_clips_tts.Security.{Result, err, ok, Rejection, Request, Verifier, verify, verify_tts}
use ai_trans_clips_tts.Security.Middleware.{
  Message, body_part, disconnect, other_message, read_body, Incoming, Decision, passed, too_large,
  unauthorized, crashed, decide, request_of, check_body, dispatch_request, declares_more,
  pipeline_gate, tts_gate, is_public, is_hmac_exempt,
}

-- The body that the client sends, whatever its length.
unfoldable pub sent : List Message → List ℕ
sent [] = []
sent (body_part part true ∷ messages) = part ++ sent messages
sent (body_part part false ∷ messages) = part
sent (disconnect ∷ messages) = []
sent (other_message ∷ messages) = sent messages

abbrev pub capped : ℕ → List ℕ → Option (List ℕ)
capped max_bytes body = if leb (length body) max_bytes then some body else none

append_nil : (xs : List ℕ) → xs ++ [] ≡ xs
append_nil [] = refl
append_nil (x ∷ xs) = ap (λ (l : List ℕ). x ∷ l) (append_nil xs)

append_assoc : (xs ys zs : List ℕ) → (xs ++ ys) ++ zs ≡ xs ++ (ys ++ zs)
append_assoc [] ys zs = refl
append_assoc (x ∷ xs) ys zs = ap (λ (l : List ℕ). x ∷ l) (append_assoc xs ys zs)

capped_short :
    (max_bytes : ℕ) (body : List ℕ) → length body ≤ max_bytes → capped max_bytes body ≡ some body
capped_short max_bytes body h = rw (le→leb (length body) max_bytes h) refl

capped_long :
    (max_bytes : ℕ) (body : List ℕ) → max_bytes < length body → capped max_bytes body ≡ none
capped_long max_bytes body h = ground (arith, h)

read_from :
    (max_bytes : ℕ) (body : List ℕ) (messages : List Message)
    → length body ≤ max_bytes
    → read_body max_bytes body messages ≡ capped max_bytes (body ++ sent messages)
unfolding read_body sent
read_from max_bytes body [] h = rw (append_nil body) (sym (capped_short max_bytes body h))
read_from max_bytes body (disconnect ∷ messages) h =
    rw (append_nil body) (sym (capped_short max_bytes body h))
read_from max_bytes body (other_message ∷ messages) h = read_from max_bytes body messages h
read_from max_bytes body (body_part part true ∷ messages) h =
    elim (Bool-cases (ltb max_bytes (length (body ++ part)))) [
      | inl over ↦
          let long : max_bytes < length (body ++ part) =
            ltb→lt max_bytes (length (body ++ part)) over in
          rw over (
            sym (
              capped_long max_bytes (body ++ (part ++ sent messages)) (
                omega (
                  arith,
                  long,
                  length-append body part,
                  length-append body (part ++ sent messages),
                  length-append part (sent messages),
                ))))
      | inr fits ↦ rw fits (
          read_from max_bytes (body ++ part) messages
            (ltb→le max_bytes (length (body ++ part)) fits)
          ∙ ap (λ (l : List ℕ). capped max_bytes l) (append_assoc body part (sent messages)))
    ]
read_from max_bytes body (body_part part false ∷ messages) h =
    elim (Bool-cases (ltb max_bytes (length (body ++ part)))) [
      | inl over ↦ rw over (
          sym
            (capped_long max_bytes (body ++ part) (ltb→lt max_bytes (length (body ++ part)) over)))
      | inr fits ↦ rw fits (
          sym
            (capped_short max_bytes (body ++ part) (ltb→le max_bytes (length (body ++ part)) fits)))
    ]

-- Reading in parts, and giving up at the first part that goes past the cap, answers exactly as
-- reading the whole body first and comparing its length then.
pub read_body_exact :
    (max_bytes : ℕ) (messages : List Message)
    → read_body max_bytes [] messages
      ≡ (if leb (length (sent messages)) max_bytes then some (sent messages) else none)
read_body_exact max_bytes messages = read_from max_bytes [] messages (omega arith)

decide_err :
    (body : List ℕ) (rejection : Rejection)
    → (decide body (err rejection) ≡ unauthorized rejection)
      ⊎ (decide body (err rejection) ≡ crashed)
unfolding decide
decide_err body Rejection.type_error = inr refl
decide_err body Rejection.not_configured = inl refl
decide_err body Rejection.missing_headers = inl refl
decide_err body Rejection.unknown_key = inl refl
decide_err body Rejection.invalid_timestamp = inl refl
decide_err body Rejection.outside_skew = inl refl
decide_err body Rejection.body_mismatch = inl refl
decide_err body Rejection.signature_mismatch = inl refl
decide_err body Rejection.replayed = inl refl

module _ (check : Verifier → Request → ℕ → Dict Text ℕ → Result (Unit {0}) × Dict Text ℕ) where
  -- How the middleware answers a request that needs a signature, and what `verify` has said.
  abbrev pub IsGuarded : ℕ → Verifier → Incoming → ℕ → Dict Text ℕ → Decision × Dict Text ℕ → Type 0
  IsGuarded max_bytes v r now seen (decision, seen') =
      let body = sent r.messages in
      let answer = check v (request_of r body) now seen in
      (decision ≡ passed body) × (length body ≤ max_bytes) × (answer ≡ (ok tt, seen'))
      ⊎ ((decision ≡ too_large)
          × (seen' ≡ seen)
          × ((declares_more max_bytes r.content_length ≡ true) ⊎ (max_bytes < length body)))
      ⊎ ((rejection : Rejection) × (answer ≡ (err rejection, seen'))
          × ((decision ≡ unauthorized rejection) ⊎ (decision ≡ crashed)))

  answered :
      (max_bytes : ℕ) (v : Verifier) (r : Incoming) (now : ℕ) (seen : Dict Text ℕ)
      (answer : Result (Unit {0}) × Dict Text ℕ)
      → length (sent r.messages) ≤ max_bytes
      → check v (request_of r (sent r.messages)) now seen ≡ answer
      → IsGuarded max_bytes v r now seen (decide (sent r.messages) answer.0, answer.1)
  unfolding decide
  answered max_bytes v r now seen (ok u, seen') fits e = inl (refl, fits, e)
  answered max_bytes v r now seen (err rejection, seen') fits e =
      inr (inr (rejection, e, decide_err (sent r.messages) rejection))

  module _ (is_exempt : Text → Bool) (max_bytes : ℕ) (v : Verifier) (r : Incoming) (now : ℕ)
      (seen : Dict Text ℕ) where
    abbrev answer_of : Result (Unit {0}) × Dict Text ℕ
    answer_of = check v (request_of r (sent r.messages)) now seen

    dispatch-declared :
        is_exempt r.path ≡ false
        → declares_more max_bytes r.content_length ≡ true
        → dispatch_request check is_exempt max_bytes v r now seen ≡ (too_large, seen)
    unfolding dispatch_request
    dispatch-declared signed declared = rw (signed, declared) refl

    dispatch-long :
        is_exempt r.path ≡ false
        → declares_more max_bytes r.content_length ≡ false
        → leb (length (sent r.messages)) max_bytes ≡ false
        → dispatch_request check is_exempt max_bytes v r now seen ≡ (too_large, seen)
    unfolding dispatch_request check_body
    dispatch-long signed undeclared over =
        rw (signed, undeclared, read_body_exact max_bytes r.messages, over) refl

    dispatch-read :
        is_exempt r.path ≡ false
        → declares_more max_bytes r.content_length ≡ false
        → leb (length (sent r.messages)) max_bytes ≡ true
        → dispatch_request check is_exempt max_bytes v r now seen
          ≡ (decide (sent r.messages) answer_of.0, answer_of.1)
    unfolding dispatch_request check_body
    dispatch-read signed undeclared fits =
        rw (signed, undeclared, read_body_exact max_bytes r.messages, fits) refl

  -- Whatever the check is.
  pub dispatch_request-IsGuarded :
      (is_exempt : Text → Bool) (max_bytes : ℕ) (v : Verifier) (r : Incoming) (now : ℕ)
      (seen : Dict Text ℕ)
      → is_exempt r.path ≡ false
      → IsGuarded max_bytes v r now seen (dispatch_request check is_exempt max_bytes v r now seen)
  dispatch_request-IsGuarded is_exempt max_bytes v r now seen signed =
      elim (Bool-cases (declares_more max_bytes r.content_length)) [
        | inl declared ↦
            subst (IsGuarded max_bytes v r now seen)
              (sym (dispatch-declared is_exempt max_bytes v r now seen signed declared))
              (inr (inl (refl, refl, inl declared)))
        | inr undeclared ↦ elim (Bool-cases (leb (length (sent r.messages)) max_bytes)) [
          | inl fits ↦
              subst (IsGuarded max_bytes v r now seen)
                (sym (dispatch-read is_exempt max_bytes v r now seen signed undeclared fits))
                (answered max_bytes v r now seen (check v (request_of r (sent r.messages)) now seen)
                  (leb→le (length (sent r.messages)) max_bytes fits) refl)
          | inr over ↦
              let long : max_bytes < length (sent r.messages) = ground (arith, over) in
              subst (IsGuarded max_bytes v r now seen)
                (sym (dispatch-long is_exempt max_bytes v r now seen signed undeclared over))
                (inr (inl (refl, refl, inr long)))
        ]
      ]

-- The middleware of the pipeline worker and that of the TTS worker, at a path that is not exempt: a
-- request reaches the routes only when the worker's `verify` has accepted it, with the whole body
-- that the client sent, and that is within the cap. It is refused as too large, and no nonce is looked
-- at, only when it declares or sends more than the cap. Otherwise `verify` has rejected it, and it is
-- answered as unauthorized or its exception leaves the middleware.
pub gates-IsGuarded :
    (sha256_hex : List ℕ → Text) (hmac_hex : Text → Text → Text) (max_bytes : ℕ) (v : Verifier)
    (r : Incoming) (now : ℕ) (seen : Dict Text ℕ)
    → is_public r.path ≡ false
    → is_hmac_exempt r.path ≡ false
    → IsGuarded
        (verify sha256_hex hmac_hex)
        max_bytes
        v
        r
        now
        seen
        (pipeline_gate sha256_hex hmac_hex max_bytes v r now seen)
      × IsGuarded
          (verify_tts sha256_hex hmac_hex)
          max_bytes
          v
          r
          now
          seen
          (tts_gate sha256_hex hmac_hex max_bytes v r now seen)
unfolding pipeline_gate tts_gate
gates-IsGuarded sha256_hex hmac_hex max_bytes v r now seen public exempt = (
  dispatch_request-IsGuarded (verify sha256_hex hmac_hex) is_public max_bytes v r now seen public,
  dispatch_request-IsGuarded (verify_tts sha256_hex hmac_hex) is_hmac_exempt max_bytes v r now seen
      exempt,
)
