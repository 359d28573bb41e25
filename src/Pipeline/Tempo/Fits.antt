-- ===== src/Pipeline/Tempo/Fits.antt =====
-- The factors of pipeline-worker/align.py are within their bounds, and the clips within their slots.
use ai_trans_clips_tts.Prelude.{
  ℕ, ◌*◌, ◌≤◌, ◌<◌, ◌≡◌, refl, subst, inl, inr, ◌⊎◌, true, ◌&&◌, ◌||◌, &&-eq-true, none, leb,
  leb→le, Bool-cases, arith, ◌==◌, nat_eq,
}
use ai_trans_clips_tts.Pipeline.Errors.{Result, ok, raised, ◌>>=◌}
use ai_trans_clips_tts.Pipeline.Tempo.{
  Fraction, leb_fraction, min_fraction, max_fraction, one, auto_factor, auto, Slowdown,
  slow_factor_for, narration_speedup, Tempos, Plan, plan_for, Media, fit_to_slot, stretched,
  or_fallback, work_duration, of_ms,
}

-- `a <= b` of fractions
infix 50 ◌≤Q◌
abbrev pub ◌≤Q◌ : Fraction → Fraction → Type 0
a ≤Q b = a.num * b.den ≤ b.num * a.den

mul_mono : (a b c d : ℕ) → a ≤ b → c ≤ d → a * c ≤ d * b
mul_mono a b c d h k = grind (arith, h, k)

-- A fraction that is put between two others.
clamped :
    (lo hi r : Fraction)
    → lo ≤Q hi
    → (lo ≤Q min_fraction hi (max_fraction lo r))
      × (min_fraction hi (max_fraction lo r) ≤Q hi)
      × ((r ≤Q min_fraction hi (max_fraction lo r)) ⊎ (min_fraction hi (max_fraction lo r) ≡ hi))
clamped lo hi r h = elim (Bool-cases (leb_fraction lo r)) [
  | inl above ↦ rw above (elim (Bool-cases (leb_fraction hi r)) [
    | inl over ↦ rw over (h, omega arith, inr refl)
    | inr under ↦ rw under (leb→le _ _ above, ground (arith, under), inl (omega arith))
  ])
  | inr below ↦ rw below (elim (Bool-cases (leb_fraction hi lo)) [
    | inl over ↦ rw over (h, omega arith, inr refl)
    | inr under ↦ rw under (omega arith, h, inl (ground (arith, below)))
  ])
]

auto_factor_bounds :
    (s : Slowdown) (measured_total video_duration : ℕ)
    → s.slow_min ≤Q s.slow_factor
    → 0 < video_duration
    → one ≤Q s.slow_min
    → let factor = auto_factor s measured_total video_duration in
      (s.slow_min ≤Q factor)
      × (factor ≤Q s.slow_factor)
      × ((measured_total * factor.den ≤ factor.num * video_duration) ⊎ (factor ≡ s.slow_factor))
auto_factor_bounds s measured_total video_duration h some_time at_least =
    elim (Bool-cases (leb measured_total video_duration || video_duration == 0)) [
      | inl short ↦ rw short (
        omega arith,
        h,
        inl (
            mul_mono measured_total video_duration s.slow_min.den s.slow_min.num
              (ground (arith, short)) (omega arith)),
      )
      | inr long ↦ rw long (
          clamped s.slow_min s.slow_factor (record { num = measured_total; den = video_duration })
            h)
    ]

-- In the mode `auto` the factor is within its bounds, and the narration fits into the slowed video or
-- the factor is the largest that is allowed. It needs a smallest factor of at least one.
pub slow_factor_for_bounds :
    (s : Slowdown) (measured_total video_duration : ℕ)
    → s.slow_mode ≡ auto
    → s.slow_min ≤Q s.slow_factor
    → one ≤Q s.slow_min
    → 0 < video_duration
    → let factor = slow_factor_for s measured_total video_duration in
      (s.slow_min ≤Q factor)
      × (factor ≤Q s.slow_factor)
      × ((measured_total * factor.den ≤ factor.num * video_duration) ⊎ (factor ≡ s.slow_factor))
unfolding slow_factor_for
slow_factor_for_bounds s measured_total video_duration mode h at_least some_time =
    rw mode (auto_factor_bounds s measured_total video_duration h some_time at_least)

sped_up :
    (den num total out : ℕ)
    → den ≤ num
    → out ≤ total
    → let factor =
        max_fraction (record { num = den; den = num }) (record { num = out; den = total }) in
      (factor ≤Q one)
      × (den * factor.den ≤ factor.num * num)
      × ((total * factor.num ≤ out * factor.den) ⊎ (factor ≡ record { num = den; den = num }))
sped_up den num total out h k = elim (Bool-cases (leb (den * total) (out * num))) [
  | inl more ↦ rw more (omega arith, leb→le _ _ more, inl (omega arith))
  | inr less ↦ rw less (omega arith, omega arith, inr refl)
]

-- The speed-up of the narration: never a slowdown, at most the one that is allowed, and enough to make
-- the narration fit unless that is the largest.
pub narration_speedup_bounds :
    (s : Slowdown) (total_natural out_duration : ℕ)
    → s.max_speedup.den ≤ s.max_speedup.num
    → 0 < out_duration
    → let factor = narration_speedup s total_natural out_duration in
      (factor ≤Q one)
      × (s.max_speedup.den * factor.den ≤ factor.num * s.max_speedup.num)
      × ((total_natural * factor.num ≤ out_duration * factor.den)
          ⊎ (factor ≡ record { num = s.max_speedup.den; den = s.max_speedup.num }))
unfolding narration_speedup
narration_speedup_bounds s total_natural out_duration h some_time =
    elim (Bool-cases (total_natural == 0 || out_duration == 0)) [
      | inl empty ↦ rw empty (omega arith, omega arith, inl (ground (arith, empty)))
      | inr full ↦ rw full (elim (Bool-cases (leb total_natural out_duration)) [
        | inl fits ↦ rw fits (omega arith, omega arith, inl (ground (arith, fits)))
        | inr over ↦ rw over (
            sped_up s.max_speedup.den s.max_speedup.num total_natural out_duration h
              (ground (arith, over)))
      ])
    ]

-- The tempo of a plan is allowed, and its clip is not longer than the slot.
abbrev pub IsWithin : Fraction → Fraction → ℕ → Plan → Type 0
IsWithin min_speed max_speed slot plan =
    (min_speed ≤Q plan.tempo)
    × (plan.tempo ≤Q max_speed)
    × (plan.target ≤Q record { num = slot; den = 1 })

min_fraction-le : (a b : Fraction) → min_fraction a b ≤Q a
min_fraction-le a b = elim (Bool-cases (leb_fraction a b)) [
  | inl less ↦ rw less (omega arith)
  | inr more ↦ rw more (ground (arith, more))
]

plan_for-IsWithin :
    (min_speed max_speed : Fraction) (pad trimmed slot : ℕ)
    → min_speed ≤Q max_speed
    → IsWithin min_speed max_speed slot (plan_for min_speed max_speed pad trimmed slot)
unfolding plan_for
plan_for-IsWithin min_speed max_speed pad trimmed slot h =
    let ratio : Fraction = record { num = trimmed; den = slot } in
    elim (Bool-cases (leb_fraction min_speed ratio && leb_fraction ratio max_speed)) [
      | inl both ↦
          let parts =
            &&-eq-true (leb_fraction min_speed ratio) (leb_fraction ratio max_speed) both in
          rw both (leb→le _ _ parts.0, leb→le _ _ parts.1, omega arith)
      | inr other ↦ rw other (elim (Bool-cases (leb_fraction ratio max_speed)) [
        | inl slow ↦ rw slow (omega arith, h, min_fraction-le (of_ms slot) _)
        | inr fast ↦ rw fast (h, omega arith, omega arith)
      ])
    ]

-- What holds of every plan that is returned.
abbrev Ensures : (Plan → Type 0) → Result Plan → Type 0
Ensures P (ok plan) = P plan
Ensures P (raised e) = Unit

Ensures-bind {ℓ} :
    {A : Type ℓ} (P : Plan → Type 0) (m : Result A) (f : A → Result Plan)
    → ((a : A) → Ensures P (f a))
    → Ensures P (m >>= f)
Ensures-bind P (ok a) f h = h a
Ensures-bind P (raised e) f h = tt

stretched-Ensures :
    (P : Plan → Type 0) (media : Media) (plan : Plan) → P plan → Ensures P (stretched media plan)
stretched-Ensures P media plan h =
    Ensures-bind P (or_fallback (media.rubberband plan) (media.atempo plan)) (λ _. ok plan) (λ _. h)

fit_to_slot-Ensures :
    (tempos : Tempos) (media : Media) (slot : ℕ)
    → tempos.min_tempo ≤Q tempos.max_tempo
    → Ensures
        (IsWithin tempos.min_tempo tempos.max_tempo slot)
        (fit_to_slot tempos media slot none none true)
unfolding fit_to_slot
fit_to_slot-Ensures tempos media slot h = elim (Bool-cases media.src_exists) [
  | inl there ↦ rw there (elim (Bool-cases (slot == 0)) [
    | inl bad ↦ rw bad tt
    | inr fine ↦ rw fine (elim (Bool-cases (media.tts_duration == 0)) [
      | inl silent ↦ rw silent tt
      | inr some_sound ↦ rw some_sound (
          Ensures-bind (IsWithin tempos.min_tempo tempos.max_tempo slot)
            (work_duration tempos media) _
            (λ duration.
              stretched-Ensures (IsWithin tempos.min_tempo tempos.max_tempo slot) media _ (
                plan_for-IsWithin tempos.min_tempo tempos.max_tempo tempos.pad_buffer duration slot
                  h)))
    ])
  ])
  | inr missing ↦ rw missing tt
]

-- A clip that is stretched to its slot is never longer than it, and its tempo is one that is allowed,
-- when the smallest tempo is not above the largest.
pub fit_to_slot-IsWithin :
    (tempos : Tempos) (media : Media) (slot : ℕ) (plan : Plan)
    → tempos.min_tempo ≤Q tempos.max_tempo
    → fit_to_slot tempos media slot none none true ≡ ok plan
    → IsWithin tempos.min_tempo tempos.max_tempo slot plan
fit_to_slot-IsWithin tempos media slot plan h e =
    subst (Ensures (IsWithin tempos.min_tempo tempos.max_tempo slot)) e
      (fit_to_slot-Ensures tempos media slot h)
