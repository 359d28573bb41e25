-- ===== src/Tts/JobRunner/Progress.antt =====
-- The reports of progress in app/services/job_runner.py: `on_progress` and what it writes.
use ai_trans_clips_tts.Prelude.{
  ℕ, ◌≤◌, ◌<◌, ◌≡◌, refl, sym, subst, false, List, [], ◌∷◌, arith, leb, max, Bool-cases, inl, inr,
  leb→le,
}
use ai_trans_clips_tts.Tts.JobRunner.{Report, advances}

-- Every percent is above the ones before it, and above `floor`.
abbrev pub IsIncreasing : ℕ → List Report → Type 0
IsIncreasing floor [] = Unit
IsIncreasing floor ((now, percent, stage) ∷ calls) = (floor < percent) × IsIncreasing percent calls

abbrev pub furthest_of : ℕ → List Report → ℕ
furthest_of furthest [] = furthest
furthest_of furthest ((now, percent, stage) ∷ calls) = furthest_of (max furthest percent) calls

max_ge : (a b : ℕ) → b ≤ a → max a b ≡ a
max_ge a b h = omega arith

max_le : (a b : ℕ) → a ≤ b → max a b ≡ b
max_le a b h = omega arith

not_le : (a b : ℕ) → leb a b ≡ false → b < a
not_le a b h = ground arith

-- The written percents rise strictly, from above `furthest`, in whatever order the synthesis reports
-- them, and the greatest reported one is among them: the last written is the greatest of all.
pub advances-IsIncreasing :
    (furthest : ℕ) (calls : List Report)
    → IsIncreasing furthest (advances furthest calls)
      × (furthest_of furthest (advances furthest calls) ≡ furthest_of furthest calls)
unfolding advances
advances-IsIncreasing furthest [] = (tt, refl)
advances-IsIncreasing furthest ((now, percent, stage) ∷ calls) =
    elim (Bool-cases (leb percent furthest)) [
      | inl back ↦ rw back (
          rw (max_ge furthest percent (leb→le percent furthest back))
            (advances-IsIncreasing furthest calls))
      | inr forward ↦
          let above : furthest < percent = not_le percent furthest forward in
          let (rising, last) = advances-IsIncreasing percent calls in
          rw forward (
            (above, rising),
            subst (λ m. furthest_of m (advances percent calls) ≡ furthest_of m calls)
                (sym (max_le furthest percent (omega (arith, above)))) last,
          )
    ]
