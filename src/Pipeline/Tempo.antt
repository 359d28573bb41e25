-- ===== src/Pipeline/Tempo.antt =====
-- pipeline-worker/align.py: how much the video is slowed, the narration sped up, and a clip stretched
-- to its slot. Factors are fractions of natural numbers, durations are milliseconds; a rounding to
-- three places, for the log, is left out.
pub mod Fits
use ai_trans_clips_tts.Prelude.{
  ℕ, zero, suc, ◌+◌, ◌-◌, ◌*◌, Bool, true, false, ◌&&◌, ◌||◌, Option, none, some, if◌then◌else◌,
  ltb, leb, ◌==◌, nat_eq,
}
use ai_trans_clips_tts.Prelude.Text.{Text, codes}
use ai_trans_clips_tts.Pipeline.Errors.{
  permanent, transient, pipeline_error, Result, ok, raised, ◌>>=◌,
}

-- A number `num / den`; the denominators are positive.
pub record Fraction : Type 0 where
  pub num : ℕ
  pub den : ℕ

abbrev pub leb_fraction : Fraction → Fraction → Bool
leb_fraction a b = leb (a.num * b.den) (b.num * a.den)

abbrev pub min_fraction : Fraction → Fraction → Fraction
min_fraction a b = if leb_fraction a b then a else b

abbrev pub max_fraction : Fraction → Fraction → Fraction
max_fraction a b = if leb_fraction a b then b else a

abbrev pub one : Fraction
one = record { num = 1; den = 1 }

-- DUB_SLOW_MODE: any other value counts as `auto`.
pub data SlowMode : Type 0 where
  off fixed auto : SlowMode

-- DUB_SLOW_FACTOR, DUB_SLOW_MIN and DUB_MAX_SPEEDUP
pub record Slowdown : Type 0 where
  pub slow_mode : SlowMode
  pub slow_factor : Fraction
  pub slow_min : Fraction
  pub max_speedup : Fraction

abbrev pub default_slowdown : Slowdown
default_slowdown = record {
  slow_mode = auto;
  slow_factor = record { num = 3; den = 2 };
  slow_min = one;
  max_speedup = record { num = 3; den = 2 };
}

abbrev pub auto_factor : Slowdown → ℕ → ℕ → Fraction
auto_factor s measured_total video_duration =
    if leb measured_total video_duration || video_duration == 0
    then s.slow_min
    else min_fraction s.slow_factor
        (max_fraction s.slow_min (record { num = measured_total; den = video_duration }))

abbrev factor_for : Slowdown → SlowMode → ℕ → ℕ → Fraction
factor_for s off measured_total video_duration = one
factor_for s fixed measured_total video_duration = s.slow_factor
factor_for s auto measured_total video_duration = auto_factor s measured_total video_duration

unfoldable pub slow_factor_for : Slowdown → ℕ → ℕ → Fraction
slow_factor_for s measured_total video_duration =
    factor_for s s.slow_mode measured_total video_duration

-- `1.0 / DUB_MAX_SPEEDUP` is the fraction turned round.
unfoldable pub narration_speedup : Slowdown → ℕ → ℕ → Fraction
narration_speedup s total_natural out_duration =
    if total_natural == 0 || out_duration == 0
    then one
    else if leb total_natural out_duration
    then one
    else max_fraction (record { num = s.max_speedup.den; den = s.max_speedup.num })
        (record { num = out_duration; den = total_natural })

-- ALIGN_MIN_TEMPO, ALIGN_MAX_TEMPO, SLOW_PAD_BUFFER_SECONDS and TRIM_SILENCE
pub record Tempos : Type 0 where
  pub min_tempo : Fraction
  pub max_tempo : Fraction
  pub pad_buffer : ℕ
  pub trim_silence : Bool

abbrev pub default_tempos : Tempos
default_tempos = record {
  min_tempo = record { num = 1; den = 2 };
  max_tempo = record { num = 2; den = 1 };
  pad_buffer = 600;
  trim_silence = true;
}

-- The tempo of the clip, whether it fits, and the length that it is cut or padded to, in
-- milliseconds.
pub record Plan : Type 0 where
  pub tempo : Fraction
  pub fits : Bool
  pub target : Fraction

-- `trimmed_dur / min_speed + SLOW_PAD_BUFFER_SECONDS`
abbrev slowed : Fraction → ℕ → ℕ → Fraction
slowed min_speed pad trimmed = record {
  num = trimmed * min_speed.den + pad * min_speed.num;
  den = min_speed.num;
}

abbrev pub of_ms : ℕ → Fraction
of_ms n = record { num = n; den = 1 }

-- The three branches on `ratio`
unfoldable pub plan_for : Fraction → Fraction → ℕ → ℕ → ℕ → Plan
plan_for min_speed max_speed pad trimmed slot =
    let ratio : Fraction = record { num = trimmed; den = slot } in
    if leb_fraction min_speed ratio && leb_fraction ratio max_speed
    then record { tempo = ratio; fits = true; target = of_ms slot }
    else if leb_fraction ratio max_speed
    then record {
      tempo = min_speed;
      fits = false;
      target = min_fraction (of_ms slot) (slowed min_speed pad trimmed);
    }
    else record { tempo = max_speed; fits = false; target = of_ms slot }

-- ffmpeg and ffprobe: the durations that they find, 0 for none, and the text of a run that fails.
pub record Media : Type 0 where
  pub src_exists : Bool
  pub tts_duration : ℕ
  pub trim : Result (Unit {0})
  pub trimmed_duration : ℕ
  pub natural_wav : Result (Unit {0})
  pub rubberband : Plan → Result (Unit {0})
  pub atempo : Plan → Result (Unit {0})

unfoldable pub align_failed : Text
align_failed = codes "ALIGN_FAILED"

-- What the clip is stretched from: the trimmed one, unless the trim has left nothing.
abbrev trimmed_work : Media → Result ℕ
trimmed_work media = media.trim >>= λ _.
    ok (if media.trimmed_duration == 0 then media.tts_duration else media.trimmed_duration)

abbrev pub work_duration : Tempos → Media → Result ℕ
work_duration tempos media =
    if tempos.trim_silence then trimmed_work media else ok media.tts_duration

-- A TransientError of the first filter is met by the second one.
abbrev pub or_fallback : Result (Unit {0}) → Result (Unit {0}) → Result (Unit {0})
or_fallback (ok done) fallback = ok done
or_fallback (raised (pipeline_error transient code message)) fallback = fallback
or_fallback (raised e) fallback = raised e

abbrev or_tempo : Fraction → Option Fraction → Fraction
or_tempo default none = default
or_tempo default (some speed) = speed

abbrev pub natural : ℕ → Plan
natural duration = record { tempo = one; fits = true; target = of_ms duration }

abbrev pub stretched : Media → Plan → Result Plan
stretched media plan = or_fallback (media.rubberband plan) (media.atempo plan) >>= λ _. ok plan

-- `fit_to_slot`, with what is decided about the clip
unfoldable pub fit_to_slot :
    Tempos → Media → ℕ → Option Fraction → Option Fraction → Bool → Result Plan
unfolding plan_for align_failed
fit_to_slot tempos media slot min_speed max_speed stretch =
    let plan =
      plan_for (or_tempo tempos.min_tempo min_speed) (or_tempo tempos.max_tempo max_speed)
        tempos.pad_buffer in
    if media.src_exists
    then if slot == 0
      then raised (pipeline_error permanent align_failed (codes "invalid slot"))
      else if media.tts_duration == 0
      then raised (pipeline_error transient align_failed (codes "could not probe"))
      else if stretch
      then (work_duration tempos media >>= λ duration. stretched media (plan duration slot))
      else (work_duration tempos media >>= λ duration.
          media.natural_wav >>= λ _. ok (natural duration))
    else raised (pipeline_error permanent align_failed (codes "tts clip not found"))
