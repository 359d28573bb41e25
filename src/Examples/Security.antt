-- ===== src/Examples/Security.antt =====
-- The request signing of the workers on small inputs. The hash functions are stand-ins: the one
-- gives every body the same digest, the other gives the secret.
use ai_trans_clips_tts.Prelude.{
  ℕ, true, false, none, some, List, [], ◌∷◌, ◌≡◌, ◌≢◌, refl, arith, nat_eq, list_eq, if◌then◌else◌,
  leb, length,
}
use ai_trans_clips_tts.Prelude.Dict.{get, put}
use ai_trans_clips_tts.Prelude.Text.{
  Text, codes, lower, upper, is_ascii, is_space, strip, parse_int,
}
use ai_trans_clips_tts.Security.{
  ok, err, Rejection, Request, Verifier, pipeline_headers, verify, verify_tts,
}
use ai_trans_clips_tts.Security.Middleware.{
  Message, Incoming, Decision, read_body, is_public, request_of, is_hmac_exempt, pipeline_gate,
  tts_gate,
}
use ai_trans_clips_tts.Security.Middleware.Gate.{sent, read_body_exact, IsGuarded, gates-IsGuarded}
use ai_trans_clips_tts.Security.Replay.{run_requests, verify_once}

abbrev sha : List ℕ → Text
sha body = codes "0f"

abbrev mac : Text → Text → Text
mac secret text = codes "ab"

abbrev verifier : Verifier
verifier = record {
  names = pipeline_headers;
  keys = (codes "k", codes "s") ∷ [];
  max_skew = 60;
  nonce_ttl = 300;
}

abbrev request : Request
request = record {
  method = codes "GET";
  path_and_query = codes "/jobs";
  headers =
      (codes "X-Pipeline-Key-Id", codes "k")
      ∷ (codes "X-Pipeline-Timestamp", codes "100")
      ∷ (codes "X-Pipeline-Nonce", codes "n")
      ∷ (codes "X-Pipeline-Content-SHA256", codes "0F")
      ∷ (codes "X-Pipeline-Signature", codes "AB")
      ∷ [];
  body = [];
}

program : Unit {0}
unfolding verify pipeline_headers get put lower upper is_ascii parse_int strip is_space
program = tt

accepted : (verify sha mac verifier request 120000 []).0 ≡ ok tt
unfolding program
accepted = refl

-- The same request without its signature.
abbrev unsigned : Request
unsigned = record request {
  headers =
      (codes "X-Pipeline-Key-Id", codes "k")
      ∷ (codes "X-Pipeline-Timestamp", codes "100")
      ∷ (codes "X-Pipeline-Nonce", codes "n")
      ∷ (codes "X-Pipeline-Content-SHA256", codes "0F")
      ∷ [];
}

rejected : (verify sha mac verifier unsigned 120000 []).0 ≡ err Rejection.missing_headers
unfolding program
rejected = refl

abbrev later_history : List (ℕ × Request)
later_history = (121000, request) ∷ (125000, unsigned) ∷ []

verify_once_example :
    (verify sha mac verifier request 130000
      (run_requests sha mac verifier later_history (verify sha mac verifier request 120000 []).1)).0
    ≢ ok tt
verify_once_example =
    verify_once sha mac verifier request request 120000 130000 later_history [] (omega arith) refl
      refl (omega arith) accepted

-- The request as it arrives, with an empty body in two parts.
abbrev incoming : Incoming
incoming = record {
  method = codes "GET";
  path = codes "/jobs";
  query = [];
  headers = request.headers;
  content_length = some (codes "0");
  messages = Message.body_part [] true ∷ Message.body_part [] false ∷ [];
}

jobs_public : is_public incoming.path ≡ false
unfolding is_public
jobs_public = refl

jobs_exempt : is_hmac_exempt incoming.path ≡ false
unfolding is_hmac_exempt
jobs_exempt = refl

gate_test : (pipeline_gate sha mac 2000 verifier incoming 120000 []).0 ≡ Decision.passed []
unfolding program pipeline_gate request_of
gate_test = refl

gates-IsGuarded_example :
    IsGuarded
      (verify sha mac)
      2000
      verifier
      incoming
      120000
      []
      (pipeline_gate sha mac 2000 verifier incoming 120000 [])
    × IsGuarded
        (verify_tts sha mac)
        2000
        verifier
        incoming
        120000
        []
        (tts_gate sha mac 2000 verifier incoming 120000 [])
gates-IsGuarded_example =
    gates-IsGuarded sha mac 2000 verifier incoming 120000 [] jobs_public jobs_exempt

read_body_exact_example :
    read_body 2 [] (Message.body_part (1 ∷ 2 ∷ []) true ∷ Message.body_part (3 ∷ []) false ∷ []) ≡ (
      if leb
        (length
          (sent (Message.body_part (1 ∷ 2 ∷ []) true ∷ Message.body_part (3 ∷ []) false ∷ [])))
        2
      then some (sent (Message.body_part (1 ∷ 2 ∷ []) true ∷ Message.body_part (3 ∷ []) false ∷ []))
      else none)
read_body_exact_example =
    read_body_exact 2 (Message.body_part (1 ∷ 2 ∷ []) true ∷ Message.body_part (3 ∷ []) false ∷ [])
