-- ===== src/VideoWorker/Platforms/Boundary.antt =====
-- What a URL that video-worker/platforms.py lets through is known to be.
use ai_trans_clips_tts.Prelude.{Bool, true, false, Option, none, some, nat_eq, list_eq, any}
use ai_trans_clips_tts.Prelude.Text.{Text}
use ai_trans_clips_tts.VideoWorker.Platforms.{Platforms, belongs_to}

-- Some suffix of some platform is the host or a parent of it.
abbrev pub is_listed : Text → Platforms → Bool
is_listed host platforms =
    any (λ (name, suffixes). any (λ suffix. belongs_to host suffix) suffixes) platforms

abbrev is_given : Option Text → Bool
is_given none = false
is_given (some name) = true
