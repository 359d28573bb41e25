-- ===== src/VideoWorker/Errors.antt =====
-- video-worker/errors.py: the errors of a download, by the text that yt-dlp writes. The messages for
-- the user that the catalog holds are left out.
use ai_trans_clips_tts.Prelude.{ℕ, List, [], ◌∷◌, nat_eq, list_eq, if◌then◌else◌}
use ai_trans_clips_tts.Prelude.Text.{Text, codes, lower, contains}
use ai_trans_clips_tts.Prelude.Dict.{Dict, has}

-- CATALOG, with the HTTP status of each code
unfoldable pub catalog : Dict Text ℕ
catalog =
    (codes "UNSUPPORTED", 400)
    ∷ (codes "INVALID_URL", 400)
    ∷ (codes "PRIVATE", 422)
    ∷ (codes "LOGIN_REQUIRED", 422)
    ∷ (codes "COOKIE_EXPIRED", 422)
    ∷ (codes "GEO_BLOCKED", 451)
    ∷ (codes "RATE_LIMITED", 429)
    ∷ (codes "TOO_LARGE", 413)
    ∷ (codes "TIMEOUT", 504)
    ∷ (codes "UPSTREAM", 502)
    ∷ (codes "FAILED", 502)
    ∷ []

-- _SIGNATURES
unfoldable pub signatures : List (Text × Text)
signatures =
    (codes "larger than max-filesize", codes "TOO_LARGE")
    ∷ (codes "sign in to confirm", codes "LOGIN_REQUIRED")
    ∷ (codes "login required", codes "LOGIN_REQUIRED")
    ∷ (codes "this video is private", codes "PRIVATE")
    ∷ (codes "private video", codes "PRIVATE")
    ∷ (codes "fresh cookies", codes "COOKIE_EXPIRED")
    ∷ (codes "cookies are needed", codes "COOKIE_EXPIRED")
    ∷ (codes "not a bot", codes "LOGIN_REQUIRED")
    ∷ (codes "account", codes "LOGIN_REQUIRED")
    ∷ (codes "rate-limit", codes "RATE_LIMITED")
    ∷ (codes "too many requests", codes "RATE_LIMITED")
    ∷ (codes "http error 429", codes "RATE_LIMITED")
    ∷ (codes "not available in your country", codes "GEO_BLOCKED")
    ∷ (codes "geo", codes "GEO_BLOCKED")
    ∷ (codes "unsupported url", codes "UNSUPPORTED")
    ∷ (codes "no video formats found", codes "UNSUPPORTED")
    ∷ (codes "timed out", codes "TIMEOUT")
    ∷ []

unfoldable pub first_code : Text → List (Text × Text) → Text
unfolding contains
first_code text [] = codes "FAILED"
first_code text ((needle, code) ∷ rest) =
    if contains needle text then code else first_code text rest

-- `classify`, with its default
unfoldable pub classify : Text → Text
unfolding first_code signatures lower
classify stderr = first_code (lower stderr) signatures

pub record DownloadError : Type 0 where
  pub code : Text
  pub detail : Text

-- The constructor: a code that the catalog does not have is FAILED.
unfoldable pub download_error : Text → Text → DownloadError
unfolding catalog
download_error code detail = record {
  code = if has catalog code then code else codes "FAILED";
  detail = detail;
}
