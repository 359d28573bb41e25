-- ===== src/Tts/Synthesis.antt =====
-- app/services/synthesis.py and app/services/engine_router.py: the synthesis that the consumer of
-- app/services/job_runner.py calls. The two models and the merge of the files are parameters. The
-- share of a chunk in the progress is rounded down exactly, where the code divides as floats.
pub mod Reports
use ai_trans_clips_tts.Prelude.{
  ℕ, zero, suc, ◌+◌, ◌-◌, ◌*◌, ◌/◌, ◌%◌, Bool, true, false, ◌&&◌, ◌||◌, not, Option, none, some,
  List, [], ◌∷◌, ◌++◌, ◌==◌, nat_eq, list_eq, if◌then◌else◌, length, any,
}
use ai_trans_clips_tts.Prelude.Dict.{Dict, get}
use ai_trans_clips_tts.Prelude.Text.{digits, Text, codes, lower, strip}
use ai_trans_clips_tts.Tts.Chunking.{split_text, is_filled}
use ai_trans_clips_tts.Tts.JobRunner.{Outcome, returned, raised}

-- `s.replace("_", "-").split("-")[0]`, in one pass
unfoldable pub until_dash : Text → Text
until_dash [] = []
until_dash (c ∷ s) = if c == 45 || c == 95 then [] else c ∷ until_dash s

unfoldable pub lang_code : Text → Text
unfolding until_dash
lang_code language = until_dash (lower (strip language))

abbrev pub is_vietnamese : Text → Bool
is_vietnamese language = lang_code language == codes "vi"

-- KOKORO_DEFAULT_VOICES
unfoldable pub kokoro_default_voices : Dict Text Text
kokoro_default_voices =
    (codes "en", codes "af_heart")
    ∷ (codes "zh", codes "zf_xiaoxiao")
    ∷ (codes "ja", codes "jf_alpha")
    ∷ (codes "es", codes "ef_dora")
    ∷ (codes "fr", codes "ff_siwis")
    ∷ (codes "hi", codes "hf_alpha")
    ∷ (codes "it", codes "if_sara")
    ∷ (codes "pt", codes "pf_dora")
    ∷ []

unfoldable pub default_voice_for : Text → Text
unfolding kokoro_default_voices lang_code
default_voice_for language = elim (get kokoro_default_voices (lang_code language)) [
  | none ↦ codes "af_heart"
  | some voice ↦ voice
]

-- `(voice or "").strip()`
abbrev pub trimmed : Option Text → Text
trimmed none = []
trimmed (some voice) = strip voice

unfoldable pub resolve_kokoro_voice : Text → Option Text → Text
unfolding default_voice_for
resolve_kokoro_voice language voice =
    if is_filled (trimmed voice) then trimmed voice else default_voice_for language

unfoldable pub resolve_vieneu_voice : List Text → Text → Option Text → Text
resolve_vieneu_voice voices default voice =
    if any (λ v. v == trimmed voice) voices then trimmed voice else default

-- `f"{i + 1}/{n}"`
unfoldable pub count_text : ℕ → ℕ → Text
unfolding digits
count_text i n = digits (i + 2) (i + 1) (47 ∷ digits (n + 1) n [])

-- `f"{engine} {i + 1}/{n}"`
unfoldable pub stage_text : Text → ℕ → ℕ → Text
unfolding count_text
stage_text engine i n = engine ++ 32 ∷ count_text i n

-- A call of the progress function: percent and stage.
abbrev pub Call : Type 0
Call = ℕ × Text

-- The settings that the synthesis reads.
pub record Settings : Type 0 where
  pub vieneu_voices : List Text
  pub vieneu_default_voice : Text
  pub vieneu_chunk_chars : ℕ
  pub kokoro_chunk_chars : ℕ
  pub tts_format : Text

-- What a chunk is spoken with: a name of a voice, or a cloned one.
pub data Speaker {ℓ} (Voice : Type ℓ) : Type ℓ where
  named : Text → Speaker Voice
  cloned : Voice → Speaker Voice

-- The models: each writes the file of a chunk, and says whether it is there and not empty; `merge`
-- makes the output of the files of the chunks.
pub record Models {ℓ} (Voice : Type ℓ) : Type ℓ where
  pub vieneu : Text → Speaker Voice → Outcome Bool
  pub kokoro : Text → Text → Text → Outcome Bool
  pub merge : ℕ → Text → Text → Outcome (Unit {0})

-- After a call of the model: it raised, or wrote nothing, or the loop goes on.
unfoldable pub heard :
    Text → Call → Outcome Bool → List Call × Outcome (Unit {0}) → List Call × Outcome (Unit {0})
heard missing call (raised message cls) later = (call ∷ [], raised message cls)
heard missing call (returned false) later = (call ∷ [], raised missing (codes "RuntimeError"))
heard missing call (returned true) (calls, outcome) = (call ∷ calls, outcome)

-- The loop over the chunks, from the chunk `i` of `n`.
unfoldable pub speak :
    Text → (Text → Outcome Bool) → ℕ → ℕ → List Text → List Call × Outcome (Unit {0})
unfolding stage_text count_text heard
speak engine say i n [] = ([], returned tt)
speak engine say i n (chunk ∷ chunks) =
    heard (engine ++ codes " produced no audio for chunk " ++ count_text i n)
      (10 + i * 80 / n, stage_text engine i n) (say chunk) (speak engine say (suc i) n chunks)

-- The merge, and the last call when it has made the file.
unfoldable pub conclude : Text → Outcome (Unit {0}) → List Call × Outcome Text
conclude dest (raised message cls) = ([], raised message cls)
conclude dest (returned u) = ((100, codes "Completed") ∷ [], returned dest)

unfoldable pub merge_after {ℓ} :
    {Voice : Type ℓ}
    → Models Voice
    → ℕ
    → Text
    → Text
    → List Call × Outcome (Unit {0})
    → List Call × Outcome Text
unfolding conclude
merge_after m n dest fmt (calls, raised message cls) = (calls, raised message cls)
merge_after m n dest fmt (calls, returned u) =
    let (last, outcome) = conclude dest (m.merge n dest fmt) in (calls ++ last, outcome)

-- `_synth_vieneu` and `_synth_kokoro` up to the merge
unfoldable pub speaker_of {ℓ} :
    {Voice : Type ℓ} → Settings → Option Voice → Option Text → Speaker Voice
unfolding resolve_vieneu_voice
speaker_of settings (some voice_data) voice = cloned voice_data
speaker_of settings none voice =
    named (resolve_vieneu_voice settings.vieneu_voices settings.vieneu_default_voice voice)

unfoldable pub synth_vieneu {ℓ} :
    {Voice : Type ℓ}
    → Models Voice
    → Settings
    → Text
    → Option Text
    → Option Voice
    → ℕ × (List Call × Outcome (Unit {0}))
unfolding split_text speak speaker_of
synth_vieneu m settings text voice voice_data =
    let chunks = split_text text settings.vieneu_chunk_chars in
    let say : Text → Outcome Bool =
      λ chunk. m.vieneu chunk (speaker_of settings voice_data voice) in
    (length chunks, speak (codes "vieneu") say 0 (length chunks) chunks)

unfoldable pub synth_kokoro {ℓ} :
    {Voice : Type ℓ}
    → Models Voice
    → Settings
    → Text
    → Text
    → Option Text
    → ℕ × (List Call × Outcome (Unit {0}))
unfolding split_text speak resolve_kokoro_voice
synth_kokoro m settings text language voice =
    let chunks = split_text text settings.kokoro_chunk_chars in
    let say : Text → Outcome Bool =
      λ chunk. m.kokoro language chunk (resolve_kokoro_voice language voice) in
    (length chunks, speak (codes "kokoro") say 0 (length chunks) chunks)

-- `(fmt or get_settings().tts_format).lower().lstrip(".")`
unfoldable pub lstrip_dots : Text → Text
lstrip_dots [] = []
lstrip_dots (c ∷ s) = if c == 46 then lstrip_dots s else c ∷ s

unfoldable pub format_of : Settings → Option Text → Text
unfolding lstrip_dots
format_of settings none = lstrip_dots (lower settings.tts_format)
format_of settings (some fmt) =
    lstrip_dots (lower (if is_filled fmt then fmt else settings.tts_format))

-- `generate_tts` with an output path, and a progress function that is called with what is listed.
unfoldable pub generate_tts {ℓ} :
    {Voice : Type ℓ}
    → Models Voice
    → Settings
    → Text
    → Text
    → Option Text
    → Text
    → Option Text
    → Option Voice
    → List Call × Outcome Text
unfolding synth_vieneu synth_kokoro merge_after format_of
generate_tts m settings text language voice dest fmt voice_data =
    let spoken = strip text in
    let format = format_of settings fmt in
    if not (is_filled spoken)
    then ([], raised (codes "text is empty") (codes "ValueError"))
    else if not (format == codes "mp3" || format == codes "wav")
    then ([], raised (codes "format must be 'mp3' or 'wav'") (codes "ValueError"))
    else let (n, result) =
        if is_vietnamese language
        then synth_vieneu m settings spoken voice voice_data
        else synth_kokoro m settings spoken language voice in
      merge_after m n dest format result
