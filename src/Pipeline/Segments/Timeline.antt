-- ===== src/Pipeline/Segments/Timeline.antt =====
-- The sequential timeline of pipeline-worker/segments.py: the last loop, over segments whose ends
-- lie behind their starts.
use mathlib.Core.List.{reverse, reverse-append}
use ai_trans_clips_tts.Prelude.{
  ℕ, ◌+◌, ◌≤◌, ◌<◌, List, [], ◌∷◌, ◌++◌, ◌≡◌, refl, inl, inr, arith, if◌then◌else◌, ltb, All,
  All-append, All-weaken, Bool-cases, ltb→lt, ltb→le,
}
use ai_trans_clips_tts.Pipeline.Segments.{
  Segment, max_segment_duration, fold_text, cap_end, place, place_all,
}

-- A slot of positive length that is not longer than the cap.
abbrev pub IsSlot : Segment → Type 0
IsSlot s = (s.start < s.end) × (s.end ≤ s.start + max_segment_duration)

-- Slots in order, none beginning before an earlier one has ended.
abbrev pub IsTimeline : List Segment → Type 0
IsTimeline [] = Unit
IsTimeline (s ∷ rest) = IsSlot s × All (λ t. s.end ≤ t.start) rest × IsTimeline rest

-- The same, newest first.
abbrev pub IsReversed : List Segment → Type 0
IsReversed [] = Unit
IsReversed (s ∷ rest) = IsSlot s × All (λ p. p.end ≤ s.start) rest × IsReversed rest

IsTimeline-snoc :
    (xs : List Segment) (s : Segment)
    → IsTimeline xs
    → All (λ p. p.end ≤ s.start) xs
    → IsSlot s
    → IsTimeline (xs ++ s ∷ [])
IsTimeline-snoc [] s h before slot = (slot, tt, tt)
IsTimeline-snoc (x ∷ xs) s h before slot = (
  h.0,
  All-append (λ t. x.end ≤ t.start) xs (s ∷ []) h.1 (before.0, tt),
  IsTimeline-snoc xs s h.2 before.1 slot,
)

pub All-reverse {κ} : (P : Segment → Type κ) (xs : List Segment) → All P xs → All P (reverse xs)
All-reverse P [] h = tt
All-reverse P (x ∷ xs) h =
    rw (reverse-append (x ∷ []) xs)
      (All-append P (reverse xs) (x ∷ []) (All-reverse P xs h.1) (h.0, tt))

pub IsReversed-reverse : (xs : List Segment) → IsReversed xs → IsTimeline (reverse xs)
IsReversed-reverse [] h = tt
IsReversed-reverse (x ∷ xs) h = rw (reverse-append (x ∷ []) xs) (
    IsTimeline-snoc (reverse xs) x (IsReversed-reverse xs h.2)
      (All-reverse (λ p. p.end ≤ x.start) xs h.1) h.0)

-- The loop's state: what is placed ends at the anchor at the latest.
pub record IsPlaced (state : ℕ × List Segment) : Type 0 where
  pub slots : IsReversed state.1
  pub before : All (λ p. p.end ≤ state.0) state.1
  pub begins : state.1 ≡ [] → state.0 ≡ 0

cap_end_bounds :
    (s : Segment)
    → s.start < s.end
    → IsSlot (cap_end s) × ((cap_end s).start ≡ s.start) × ((cap_end s).end ≤ s.end)
unfolding cap_end
cap_end_bounds s h = ground arith

-- The slot that the loop appends, and what it was made from.
slot_of : ℕ → Segment → Segment
slot_of anchor s = cap_end (record s { start = if ltb s.start anchor then anchor else s.start })

slot_of_bounds :
    (anchor : ℕ) (s : Segment)
    → anchor < s.end
    → s.start < s.end
    → IsSlot (slot_of anchor s) × (anchor ≤ (slot_of anchor s).start)
unfolding slot_of
slot_of_bounds anchor s h k =
    ground
      (arith, cap_end_bounds (record s { start = if ltb s.start anchor then anchor else s.start }))

place_degenerate :
    (anchor : ℕ) (prev s : Segment) (rest : List Segment)
    → s.start < s.end
    → s.end ≤ anchor
    → place (anchor, prev ∷ rest) s ≡ (anchor, fold_text prev (record s { start = anchor }) ∷ rest)
unfolding place
place_degenerate anchor prev s rest k h = ground arith

place_slot :
    (anchor : ℕ) (sequential : List Segment) (s : Segment)
    → s.start < s.end
    → anchor < s.end
    → place (anchor, sequential) s ≡ ((slot_of anchor s).end, slot_of anchor s ∷ sequential)
unfolding place slot_of
place_slot anchor sequential s k h = ground arith

fold_text_times :
    (prev s : Segment)
    → ((fold_text prev s).start ≡ prev.start) × ((fold_text prev s).end ≡ prev.end)
unfolding fold_text
fold_text_times prev s = (refl, refl)

place_late :
    (anchor : ℕ) (sequential : List Segment) (s : Segment)
    → s.start < s.end
    → s.end ≤ anchor
    → IsPlaced (anchor, sequential)
    → IsPlaced (place (anchor, sequential) s)
place_late anchor [] s k h v = absurd (omega (arith, v.begins refl))
place_late anchor (prev ∷ rest) s k h v =
    rw (place_degenerate anchor prev s rest k h)
      (unfold fold_text in record { slots = v.slots; before = v.before; begins = λ e. cc })

place-IsPlaced :
    (anchor : ℕ) (sequential : List Segment) (s : Segment)
    → s.start < s.end
    → IsPlaced (anchor, sequential)
    → IsPlaced (place (anchor, sequential) s)
place-IsPlaced anchor sequential s k v = elim (Bool-cases (ltb anchor s.end)) [
  | inl fits ↦
      let bounds = slot_of_bounds anchor s (ltb→lt _ _ fits) k in
      rw (place_slot anchor sequential s k (ltb→lt _ _ fits)) record {
        slots = (
          bounds.0,
          All-weaken (λ p. p.end ≤ anchor) (λ p. p.end ≤ (slot_of anchor s).start) sequential
              (λ p h. omega (arith, bounds.1)) v.before,
          v.slots,
        );
        before = (
          omega arith,
          All-weaken (λ p. p.end ≤ anchor) (λ p. p.end ≤ (slot_of anchor s).end) sequential
              (λ p h. omega (arith, bounds.1, bounds.0)) v.before,
        );
        begins = λ e. cc;
      }
  | inr late ↦ place_late anchor sequential s k (ltb→le _ _ late) v
]

pub place_all-IsPlaced :
    (state : ℕ × List Segment) (segments : List Segment)
    → All (λ s. s.start < s.end) segments
    → IsPlaced state
    → IsPlaced (place_all state segments)
unfolding place_all
place_all-IsPlaced state [] h v = v
place_all-IsPlaced (anchor, sequential) (s ∷ rest) h v =
    place_all-IsPlaced (place (anchor, sequential) s) rest h.1
      (place-IsPlaced anchor sequential s h.0 v)
