-- ===== src/Security/Middleware.antt =====
-- The middleware that stands before the routes: pipeline-worker/auth.py, its copy video-worker/auth.py,
-- and HMACAuthMiddleware of app/core/middleware.py. A body arrives in messages; when the list of them
-- ends, the client is gone.
pub mod Gate
use ai_trans_clips_tts.Prelude.{
  ℕ, ◌+◌, Bool, true, false, ◌&&◌, ◌||◌, Option, none, some, List, [], ◌∷◌, ◌++◌, if◌then◌else◌,
  ltb, leb, length, any, ◌==◌, nat_eq, list_eq,
}
use ai_trans_clips_tts.Prelude.Int.{ℤ, pos, negsuc}
use ai_trans_clips_tts.Prelude.Dict.{Dict}
use ai_trans_clips_tts.Prelude.Text.{Text, codes, parse_int, is_digit, starts_with}
use ai_trans_clips_tts.Security.{
  Result, err, ok, Rejection, type_error, Verifier, Request, verify, verify_tts,
}

-- A message of the ASGI channel: a part of the body and whether more comes, the end of the
-- connection, or one of another type.
pub data Message : Type 0 where
  body_part : List ℕ → Bool → Message
  disconnect other_message : Message

unfoldable pub read_body : ℕ → List ℕ → List Message → Option (List ℕ)
read_body max_bytes body [] = some body
read_body max_bytes body (body_part part more ∷ messages) =
    let rest = read_body max_bytes (body ++ part) messages in
    if ltb max_bytes (length (body ++ part))
    then none
    else if more
    then rest
    else some (body ++ part)
read_body max_bytes body (disconnect ∷ messages) = some body
read_body max_bytes body (other_message ∷ messages) = read_body max_bytes body messages

-- PUBLIC_PATHS
unfoldable pub is_public : Text → Bool
unfolding starts_with
is_public path = starts_with (codes "/health") path

-- `_is_docs_path` and `_is_hmac_exempt` of the TTS worker
unfoldable pub is_docs_path : Text → Bool
unfolding starts_with
is_docs_path path =
    any (λ prefix. path == prefix || starts_with (prefix ++ codes "/") path)
      (codes "/docs" ∷ codes "/redoc" ∷ codes "/openapi.json" ∷ [])

unfoldable pub is_hmac_exempt : Text → Bool
unfolding starts_with is_docs_path
is_hmac_exempt path = starts_with (codes "/health") path || is_docs_path path

-- `path?query`, or the path alone
unfoldable pub path_and_query : Text → Text → Text
path_and_query path [] = path
path_and_query path (c ∷ query) = path ++ codes "?" ++ c ∷ query

-- `declared.isdigit()` on ASCII
unfoldable pub are_digits : Text → Bool
are_digits [] = true
are_digits (c ∷ s) = is_digit c && are_digits s

abbrev exceeds : ℕ → Option ℤ → Bool
exceeds max_bytes none = false
exceeds max_bytes (some (pos n)) = ltb max_bytes n
exceeds max_bytes (some (negsuc n)) = false

-- `declared and declared.isdigit() and int(declared) > max_bytes`
unfoldable pub declares_more : ℕ → Option Text → Bool
unfolding are_digits
declares_more max_bytes none = false
declares_more max_bytes (some []) = false
declares_more max_bytes (some (c ∷ s)) = are_digits (c ∷ s) && exceeds max_bytes (parse_int (c ∷ s))

-- An HTTP request before its body is read.
pub record Incoming : Type 0 where
  pub method : Text
  pub path : Text
  pub query : Text
  pub headers : Dict Text Text
  pub content_length : Option Text
  pub messages : List Message

-- The routes are called, with the channel as it is or with the body replayed; or the request is
-- refused with 413 or 401; or an exception that is not a SignatureError leaves the middleware.
pub data Decision : Type 0 where
  passed_through : Decision
  passed : List ℕ → Decision
  too_large : Decision
  unauthorized : Rejection → Decision
  crashed : Decision

-- The `try` around `verify`: a TypeError is no SignatureError.
unfoldable pub decide : List ℕ → Result (Unit {0}) → Decision
decide body (ok u) = passed body
decide body (err Rejection.type_error) = crashed
decide body (err rejection) = unauthorized rejection

unfoldable pub request_of : Incoming → List ℕ → Request
unfolding path_and_query
request_of r body = record {
  method = r.method;
  path_and_query = path_and_query r.path r.query;
  headers = r.headers;
  body = body;
}

-- `check` is the worker's `verify`.
module _ (check : Verifier → Request → ℕ → Dict Text ℕ → Result (Unit {0}) × Dict Text ℕ) where
  unfoldable pub check_body :
      Verifier → Incoming → ℕ → Dict Text ℕ → Option (List ℕ) → Decision × Dict Text ℕ
  unfolding decide request_of
  check_body v r now seen none = (too_large, seen)
  check_body v r now seen (some body) =
      let (answer, seen') = check v (request_of r body) now seen in (decide body answer, seen')

  -- `__call__`, for the test of the paths that need no signature.
  unfoldable pub dispatch_request :
      (Text → Bool) → ℕ → Verifier → Incoming → ℕ → Dict Text ℕ → Decision × Dict Text ℕ
  unfolding check_body read_body declares_more
  dispatch_request is_exempt max_bytes v r now seen =
      if is_exempt r.path
      then (passed_through, seen)
      else if declares_more max_bytes r.content_length
      then (too_large, seen)
      else check_body v r now seen (read_body max_bytes [] r.messages)

module _ (sha256_hex : List ℕ → Text) (hmac_hex : Text → Text → Text) where
  -- The middleware of the pipeline worker, with its `verify`, and that of the TTS worker.
  unfoldable pub pipeline_gate : ℕ → Verifier → Incoming → ℕ → Dict Text ℕ → Decision × Dict Text ℕ
  unfolding dispatch_request verify is_public
  pipeline_gate = dispatch_request (verify sha256_hex hmac_hex) is_public

  unfoldable pub tts_gate : ℕ → Verifier → Incoming → ℕ → Dict Text ℕ → Decision × Dict Text ℕ
  unfolding dispatch_request verify_tts is_hmac_exempt
  tts_gate = dispatch_request (verify_tts sha256_hex hmac_hex) is_hmac_exempt
