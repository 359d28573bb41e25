-- ===== src/Pipeline/Render/Graph.antt =====
-- The labels of the filter graph that pipeline-worker/mux.py hands to ffmpeg: ffmpeg wants what a filter
-- makes to be read once.
use ai_trans_clips_tts.Prelude.{
  ℕ, ◌+◌, ◌≡◌, refl, String, Bool, true, false, Option, none, some, List, [], ◌∷◌, ◌&&◌, count,
  ◌==◌, string_eq, nat_eq, arith, &&-eq-true, eq_of_==,
}
use ai_trans_clips_tts.Pipeline.Tempo.{Fraction}
use ai_trans_clips_tts.Pipeline.Render.{Box, Node, Command, RenderJob, render_translated_video}

-- How often a label is read, by the filters and by the two `-map` options.
abbrev pub uses_in : String → List Node → ℕ
uses_in label [] = 0
uses_in label (node ∷ nodes) = count (λ input. input == label) node.inputs + uses_in label nodes

abbrev pub uses : String → Command → ℕ
uses label command = uses_in label command.nodes + count (λ input. input == label) command.maps

-- Every label that one of these filters makes is read once in the command.
abbrev all_once : Command → List Node → Bool
all_once command [] = true
all_once command (node ∷ nodes) = uses node.output command == 1 && all_once command nodes

abbrev pub AreOnce : Command → List Node → Type 0
AreOnce command [] = Unit
AreOnce command (node ∷ nodes) = (uses node.output command ≡ 1) × AreOnce command nodes

abbrev pub mirrors_blurred : Bool → Option Box → Bool
mirrors_blurred flip none = false
mirrors_blurred flip (some b) = flip

-- The job, from its parts.
abbrev job_of :
    Option Box
    → Bool
    → Bool
    → Bool
    → Option Fraction
    → Bool
    → Bool
    → Option (ℕ × ℕ)
    → Option ℕ
    → ℕ
    → RenderJob
job_of blur flip ass mark slow mute audio size fps tall = record {
  flip_horizontal = flip;
  blur_box = blur;
  has_ass = ass;
  has_watermark = mark;
  slow_factor = slow;
  mute_original = mute;
  video_size = size;
  video_fps = fps;
  has_audio = audio;
  max_blur_height = tall;
}

-- A test that is true of both Booleans, and so of four of them.
both : (p : Bool → Bool) → (p true && p false) ≡ true → (b : Bool) → p b ≡ true
both p h true = (&&-eq-true (p true) (p false) h).0
both p h false = (&&-eq-true (p true) (p false) h).1

abbrev all4 : (Bool → Bool → Bool → Bool → Bool) → Bool
all4 p =
    let at = λ (a b c : Bool). p a b c true && p a b c false in
    let at2 = λ (a b : Bool). at a b true && at a b false in
    let at1 = λ (a : Bool). at2 a true && at2 a false in at1 true && at1 false

four : (p : Bool → Bool → Bool → Bool → Bool) → all4 p ≡ true → (a b c d : Bool) → p a b c d ≡ true
four p h a b c = both (p a b c) (
    both (λ c. p a b c true && p a b c false)
      (both (λ b. (p a b true true && p a b true false) && (p a b false true && p a b false false))
        (both
          (λ a.
            ((p a true true true && p a true true false)
              && (p a true false true && p a true false false))
            && ((p a false true true && p a false true false)
                && (p a false false true && p a false false false)))
          h a)
        b)
      c)

-- The checks of a job, over the four flags that change no box.
abbrev once_with :
    Option Box
    → Bool
    → Option Fraction
    → Option (ℕ × ℕ)
    → Option ℕ
    → ℕ
    → Bool
    → Bool
    → Bool
    → Bool
    → Bool
once_with blur flip slow size fps tall ass mark mute audio =
    let command =
      render_translated_video (job_of blur flip ass mark slow mute audio size fps tall) in
    all_once command command.nodes

abbrev twice_with :
    Box → Option Fraction → Option (ℕ × ℕ) → Option ℕ → ℕ → Bool → Bool → Bool → Bool → Bool
twice_with b slow size fps tall ass mark mute audio =
    uses "vflip"
      (render_translated_video (job_of (some b) true ass mark slow mute audio size fps tall))
    == 2

twice :
    (b : Box) (slow : Option Fraction) (size : Option (ℕ × ℕ)) (fps : Option ℕ) (tall : ℕ)
    (ass mark mute audio : Bool)
    → twice_with b slow size fps tall ass mark mute audio ≡ true
unfolding render_translated_video
twice b none size fps tall ass mark mute audio =
    four (twice_with b none size fps tall) refl ass mark mute audio
twice b (some f) size fps tall ass mark mute audio =
    four (twice_with b (some f) size fps tall) refl ass mark mute audio

-- When the picture is mirrored and a band of it is blurred, the label of the mirrored picture is read
-- twice, whatever else is asked for.
pub render_translated_video_twice :
    (job : RenderJob) (b : Box)
    → job.flip_horizontal ≡ true
    → job.blur_box ≡ some b
    → uses "vflip" (render_translated_video job) ≡ 2
render_translated_video_twice job b flip blur =
    let at =
      job_of (some b) true job.has_ass job.has_watermark job.slow_factor job.mute_original
        job.has_audio job.video_size job.video_fps job.max_blur_height in
    let same : job ≡ at = ground (arith, flip, blur) in
    rw same (
      eq_of_== (uses "vflip" (render_translated_video at)) 2 (
        twice b job.slow_factor job.video_size job.video_fps job.max_blur_height job.has_ass
          job.has_watermark job.mute_original job.has_audio))
