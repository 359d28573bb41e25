-- ===== src/Examples/Texts.antt =====
-- Small inputs for the models of app/services/chunking.py, app/services/synthesis.py and
-- video-worker/platforms.py.
use ai_trans_clips_tts.Prelude.{
  ℕ, ◌≤◌, ◌≡◌, refl, arith, true, false, none, some, [], ◌∷◌, length, All, ◌==◌, list_eq, nat_eq,
  if◌then◌else◌,
}
use ai_trans_clips_tts.Prelude.Text.{Text, codes, strip, lower}
use ai_trans_clips_tts.Tts.Chunking.{sentences, split_text}
use ai_trans_clips_tts.Tts.Chunking.Sentences.{spaced, split_text_exact}
use ai_trans_clips_tts.Tts.JobRunner.{returned}
use ai_trans_clips_tts.Tts.Synthesis.{Models, Settings, generate_tts}
use ai_trans_clips_tts.Tts.Synthesis.Reports.{IsReported, generate_tts-IsReported}
use ai_trans_clips_tts.VideoWorker.Platforms.{
  ParsedUrl, Network, default_platforms, validate_url, UrlError,
}

abbrev text : Text
text = codes "Hi. Go on!  Ok"

split_test : split_text text 10 ≡ codes "Hi. Go on!" ∷ codes "Ok" ∷ []
unfolding split_text strip
split_test = refl

text_sentences : sentences text ≡ codes "Hi." ∷ codes "Go on!" ∷ codes "Ok" ∷ []
unfolding sentences strip
text_sentences = refl

split_text_exact_example :
    All (λ s. length s ≤ 10) (split_text text 10)
    × (spaced (split_text text 10) ≡ spaced (sentences text))
split_text_exact_example =
    split_text_exact text 10 (rw text_sentences (omega arith))
      (rw text_sentences (omega arith, (omega arith, (omega arith, tt))))

-- A network where every name resolves to one address, and every address is an outer one.
abbrev open_network : Network
open_network = record {
  is_inner = λ ip. if ip == codes "93.184.216.34" then some false else none;
  resolve = λ host. some (codes "93.184.216.34" ∷ []);
}

abbrev url : ParsedUrl
url = record { scheme = codes "https"; hostname = some (codes "www.YouTube.com.") }

near_miss :
    validate_url open_network default_platforms
      (record url { hostname = some (codes "evilyoutube.com") })
    ≡ some UrlError.unsupported_platform
unfolding validate_url default_platforms
near_miss = refl

abbrev settings : Settings
settings = record {
  vieneu_voices = codes "Adam" ∷ [];
  vieneu_default_voice = codes "Adam";
  vieneu_chunk_chars = 10;
  kokoro_chunk_chars = 10;
  tts_format = codes "mp3";
}

-- Models that write every file.
abbrev models : Models ℕ
models = record {
  vieneu = λ chunk speaker. returned true;
  kokoro = λ language chunk voice. returned true;
  merge = λ n dest fmt. returned tt;
}

generate_test :
    generate_tts models settings text (codes "VI_vn") none (codes "out.mp3") none none ≡ (
      (10, codes "vieneu 1/2") ∷ (50, codes "vieneu 2/2") ∷ (100, codes "Completed") ∷ [],
      returned (codes "out.mp3"),
    )
unfolding generate_tts split_text strip lower
generate_test = refl

generate_tts-IsReported_example :
    IsReported
      (codes "out.mp3")
      (generate_tts models settings text (codes "VI_vn") none (codes "out.mp3") none none)
generate_tts-IsReported_example =
    generate_tts-IsReported models settings text (codes "VI_vn") none (codes "out.mp3") none none
