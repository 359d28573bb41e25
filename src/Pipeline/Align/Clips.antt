-- ===== src/Pipeline/Align/Clips.antt =====
-- The places of the clips in the aligning stage of pipeline-worker/pipeline.py.
use ai_trans_clips_tts.Prelude.{
  ℕ, ◌+◌, ◌*◌, ◌≤◌, ◌≡◌, refl, ◌⊎◌, inl, inr, List, [], ◌∷◌, max, arith, leb, leb→le, Bool-cases,
}
use ai_trans_clips_tts.Pipeline.Align.{Clip, place_clips}

-- The clips follow each other from the cursor without overlap; each starts no sooner than its
-- segment on the slowed clock, and later only when the clip before it reaches that far.
abbrev pub IsTrack : ℕ → ℕ → List ℕ → List ℕ → List Clip → Type 0
IsTrack factor cursor (start ∷ starts) (out_len ∷ out_lens) ((pos, len) ∷ clips) =
    ((len ≡ out_len)
      × (cursor ≤ pos)
      × (start * factor ≤ pos)
      × ((pos ≡ start * factor) ⊎ (pos ≡ cursor)))
    × IsTrack factor (pos + len) starts out_lens clips
IsTrack factor cursor (start ∷ starts) (out_len ∷ out_lens) [] = ⊥
IsTrack factor cursor _ _ [] = Unit
IsTrack factor cursor _ _ (clip ∷ clips) = ⊥

max_bounds : (a b : ℕ) → (b ≤ max a b) × (a ≤ max a b) × ((max a b ≡ a) ⊎ (max a b ≡ b))
max_bounds a b = elim (Bool-cases (leb a b)) [
  | inl below ↦
      (omega arith, omega arith, inr (let h : a ≤ b = leb→le a b below in omega (arith, h)))
  | inr above ↦ (omega arith, omega arith, inl (let h : b ≤ a = ground arith in omega (arith, h)))
]

-- The narration is one track: the clips of the segments in order, as many as there are of both,
-- none overlapping the next, none before its segment, and none later than it has to be.
pub place_clips-IsTrack :
    (factor cursor : ℕ) (starts out_lens : List ℕ)
    → IsTrack factor cursor starts out_lens (place_clips factor cursor starts out_lens)
unfolding place_clips
place_clips-IsTrack factor cursor [] [] = tt
place_clips-IsTrack factor cursor [] (l ∷ ls) = tt
place_clips-IsTrack factor cursor (start ∷ starts) [] = tt
place_clips-IsTrack factor cursor (start ∷ starts) (out_len ∷ out_lens) =
    let (after, late, exact) = max_bounds (start * factor) cursor in
    (
      (refl, after, late, exact),
      place_clips-IsTrack factor (max (start * factor) cursor + out_len) starts out_lens,
    )
