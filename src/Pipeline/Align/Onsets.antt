-- ===== src/Pipeline/Align/Onsets.antt =====
-- The onsets and the intervals of speech in pipeline-worker/align.py.
use ai_trans_clips_tts.Prelude.{
  ℕ, ◌+◌, ◌-◌, ◌≤◌, ◌<◌, ◌≡◌, refl, sym, subst, ◌⊎◌, inl, inr, true, false, ◌&&◌, List, [], ◌∷◌,
  ◌++◌, ltb, leb, max, arith, any, nat_eq, ◌==◌, Bool-cases, leb→le, ltb→lt, ==_refl,
}
use ai_trans_clips_tts.Pipeline.Align.{Interval, refine, refine_onsets, sound_between, speech_map}

-- Near the raw start `x`, and either that or the start of an interval of speech.
abbrev pub IsNear : ℕ → ℕ → List Interval → ℕ → Type 0
IsNear window x speech y =
    (x ≤ y + window) × (y ≤ x + window) × ((y ≡ x) ⊎ (any (λ (a, b). a == y) speech ≡ true))

-- Each refined start is near its raw one, and either that one or the start of speech.
abbrev pub AreRefined : ℕ → List Interval → List ℕ → List ℕ → Type 0
AreRefined window speech [] [] = Unit
AreRefined window speech [] (y ∷ ys) = ⊥
AreRefined window speech (x ∷ xs) [] = ⊥
AreRefined window speech (x ∷ xs) (y ∷ ys) =
    IsNear window x speech y × AreRefined window speech xs ys

IsNear-cons :
    (window x y : ℕ) (i : Interval) (speech : List Interval)
    → IsNear window x speech y
    → IsNear window x (i ∷ speech) y
IsNear-cons window x y (a, b) speech (low, high, inl kept) = (low, high, inl kept)
IsNear-cons window x y (a, b) speech (low, high, inr moved) =
    (low, high, inr (ground (arith, moved)))

refine_on :
    (window st a b : ℕ) (speech : List Interval)
    → (leb a st && leb st b) ≡ false
    → (ltb st a && leb (a - st) window) ≡ false
    → refine window st ((a, b) ∷ speech) ≡ refine window st speech
unfolding refine
refine_on window st a b speech outside on = rw (outside, on) refl

refine_bounds :
    (window st : ℕ) (speech : List Interval) → IsNear window st speech (refine window st speech)
unfolding refine
refine_bounds window st [] = (omega arith, omega arith, inl refl)
refine_bounds window st ((a, b) ∷ speech) = elim (Bool-cases (leb a st && leb st b)) [
  | inl inside ↦ elim (Bool-cases (leb (st - a) window)) [
    | inl near ↦
        let first : a ≤ st = ground arith in
        let close : st - a ≤ window = leb→le (st - a) window near in
        rw (inside, near) (omega (arith, close), omega (arith, first), inr (rw (==_refl a) refl))
    | inr far ↦ rw (inside, far) (omega arith, omega arith, inl refl)
  ]
  | inr outside ↦ elim (Bool-cases (ltb st a && leb (a - st) window)) [
    | inl soon ↦
        let later : st < a = ground arith in
        let close : a - st ≤ window = ground arith in
        rw (outside, soon) (omega (arith, later), omega (arith, close), inr (rw (==_refl a) refl))
    | inr on ↦
        subst (IsNear window st ((a, b) ∷ speech)) (sym (refine_on window st a b speech outside on))
          (IsNear-cons window st (refine window st speech) (a, b) speech
            (refine_bounds window st speech))
  ]
]

-- Every start stays within the window of where it was, and is moved only to the start of an
-- interval of speech; none is added or dropped.
pub refine_onsets-AreRefined :
    (window : ℕ) (raw_starts : List ℕ) (speech : List Interval)
    → AreRefined window speech raw_starts (refine_onsets window raw_starts speech)
unfolding refine_onsets
refine_onsets-AreRefined window [] speech = tt
refine_onsets-AreRefined window (st ∷ raw_starts) speech =
    (refine_bounds window st speech, refine_onsets-AreRefined window raw_starts speech)

-- Every interval is not empty and ends before the next one starts, the first starting at `from`.
abbrev pub AreApart : ℕ → List Interval → Type 0
AreApart from [] = Unit
AreApart from ((a, b) ∷ rest) = (from ≤ a) × (a < b) × AreApart b rest

AreApart-le : (low high : ℕ) (xs : List Interval) → low ≤ high → AreApart high xs → AreApart low xs
AreApart-le low high [] h k = tt
AreApart-le low high ((a, b) ∷ xs) h k = (omega (arith, h, k.0), k.1, k.2)

-- The ends of the silences do not lie before their starts.
abbrev pub AreSilences : List ℕ → List ℕ → Type 0
AreSilences (s ∷ starts) (e ∷ ends) = (s ≤ e) × AreSilences starts ends
AreSilences _ _ = Unit

-- Where the last interval ends, or `from` when there is none, is not after `last`.
abbrev EndsBy : ℕ → ℕ → List Interval → Type 0
EndsBy last from [] = from ≤ last
EndsBy last from ((a, b) ∷ rest) = EndsBy last b rest

EndsBy-le :
    (last low high : ℕ) (xs : List Interval) → low ≤ high → EndsBy last high xs → EndsBy last low xs
EndsBy-le last low high [] h k = omega (arith, h, k)
EndsBy-le last low high ((a, b) ∷ xs) h k = k

AreApart-snoc :
    (from last total : ℕ) (xs : List Interval)
    → AreApart from xs
    → EndsBy last from xs
    → last < total
    → AreApart from (xs ++ (last, total) ∷ [])
AreApart-snoc from last total [] k e h = (e, h, tt)
AreApart-snoc from last total ((a, b) ∷ xs) k e h =
    (k.0, k.1, AreApart-snoc b last total xs k.2 e h)

sound_between-AreApart :
    (prev : ℕ) (starts ends : List ℕ)
    → AreSilences starts ends
    → AreApart prev (sound_between prev starts ends).0
      × EndsBy (sound_between prev starts ends).1 prev (sound_between prev starts ends).0
unfolding sound_between
sound_between-AreApart prev [] ends h = (tt, omega arith)
sound_between-AreApart prev (s ∷ starts) [] h = (tt, omega arith)
sound_between-AreApart prev (s ∷ starts) (e ∷ ends) h =
    let (apart, last) = sound_between-AreApart (max prev e) starts ends h.1 in
    let intervals = (sound_between (max prev e) starts ends).0 in
    let end = (sound_between (max prev e) starts ends).1 in
    elim (Bool-cases (ltb prev s)) [
      | inl sound ↦
          let before : prev < s = ltb→lt prev s sound in
          rw sound (
            (omega arith, before, AreApart-le s (max prev e) intervals (omega (arith, h.0)) apart),
            EndsBy-le end s (max prev e) intervals (omega (arith, h.0)) last,
          )
      | inr none_here ↦ rw none_here (
        AreApart-le prev (max prev e) intervals (omega arith) apart,
        EndsBy-le end prev (max prev e) intervals (omega arith) last,
      )
    ]

-- When the silences that ffmpeg reports do not end before they start, the intervals of speech are
-- not empty, in order, and apart from each other.
pub speech_map-AreApart :
    (starts ends : List ℕ) (total : ℕ)
    → AreSilences starts ends
    → AreApart 0 (speech_map starts ends total)
unfolding speech_map
speech_map-AreApart starts ends total h =
    let (apart, last) = sound_between-AreApart 0 starts ends h in
    let end = (sound_between 0 starts ends).1 in
    elim (Bool-cases (ltb (end + 50) total)) [
      | inl more ↦
          let later : end + 50 < total = ltb→lt (end + 50) total more in
          rw more (
            AreApart-snoc 0 end total (sound_between 0 starts ends).0 apart last
              (omega (arith, later)))
      | inr over ↦ rw over apart
    ]
