-- ===== src/Pipeline/Segments/Clean.antt =====
-- What pipeline-worker/segments.py leaves alone, and when it gives nothing.
use mathlib.Core.List.{reverse, reverse-cons, reverse-reverse, append-nil, append_assoc}
use ai_trans_clips_tts.Prelude.{
  ℕ, ◌+◌, ◌-◌, ◌≤◌, ◌<◌, Bool, true, false, List, [], ◌∷◌, ◌++◌, ◌≡◌, refl, sym, ap, ◌∙◌, arith,
  ltb, All, All-weaken, filter, lt→ltb, le→leb,
}
use ai_trans_clips_tts.Prelude.Sorting.{sort, insert}
use ai_trans_clips_tts.Pipeline.Segments.{
  Segment, max_segment_duration, has_text, merge_from, starts_before, usable, merge_short, place,
  place_all, cap_end, normalize_segments,
}
use ai_trans_clips_tts.Pipeline.Segments.Timeline.{IsTimeline}

filter-eq_of_All {ℓ} :
    {A : Type ℓ} (p : A → Bool) (xs : List A) → All (λ x. p x ≡ true) xs → filter p xs ≡ xs
filter-eq_of_All p [] h = refl
filter-eq_of_All p (x ∷ xs) h = rw (h.0, filter-eq_of_All p xs h.1)

insert_first {ℓ} :
    {A : Type ℓ} (le : A → A → Bool) (x : A) (xs : List A)
    → All (λ y. le x y ≡ true) xs
    → insert le x xs ≡ x ∷ xs
unfolding insert
insert_first le x [] h = refl
insert_first le x (y ∷ ys) h = rw h.0

sort_timeline : (xs : List Segment) → IsTimeline xs → sort starts_before xs ≡ xs
unfolding sort
sort_timeline [] h = refl
sort_timeline (x ∷ xs) h = rw (sort_timeline xs h.2) (
    insert_first starts_before x xs (
      All-weaken (λ t. x.end ≤ t.start) (λ t. starts_before x t ≡ true) xs
        (λ t k. le→leb x.start t.start (omega (arith, h.0))) h.1))

IsTimeline-forward : (xs : List Segment) → IsTimeline xs → All (λ s. ltb s.start s.end ≡ true) xs
IsTimeline-forward [] h = tt
IsTimeline-forward (x ∷ xs) h = (lt→ltb x.start x.end h.0.0, IsTimeline-forward xs h.2)

usable_clean :
    (xs : List Segment) → IsTimeline xs → All (λ s. has_text s ≡ true) xs → usable xs ≡ xs
unfolding usable
usable_clean xs h texts =
    rw (filter-eq_of_All has_text xs texts, filter-eq_of_All _ xs (IsTimeline-forward xs h))
      (sort_timeline xs h)

module _ (m : ℕ) where
  abbrev IsEnough : Segment → Type 0
  IsEnough s = m ≤ s.end - s.start

  merge_from_clean :
      (single : Bool) (merged : List Segment) (cur : Segment) (rest : List Segment)
      → IsEnough cur
      → All IsEnough rest
      → merge_from m single merged cur rest ≡ reverse rest ++ cur ∷ merged
  unfolding merge_from
  merge_from_clean single merged cur [] h k = rw (le→leb m (cur.end - cur.start) h)
  merge_from_clean single merged cur (nxt ∷ rest) h k = rw (le→leb m (cur.end - cur.start) h) (
      merge_from_clean single (cur ∷ merged) nxt rest k.0 k.1
      ∙ sym (append_assoc (reverse rest) (nxt ∷ []) (cur ∷ merged))
      ∙ ap (λ (l : List Segment). l ++ cur ∷ merged) (sym (reverse-cons nxt rest)))

  merge_short_clean : (xs : List Segment) → All IsEnough xs → merge_short m xs ≡ xs
  unfolding merge_short
  merge_short_clean [] h = refl
  merge_short_clean (cur ∷ []) h = ap reverse (merge_from_clean true [] cur [] h.0 tt)
  merge_short_clean (cur ∷ nxt ∷ rest) h =
      ap reverse
        (merge_from_clean false [] cur (nxt ∷ rest) h.0 h.1 ∙ sym (reverse-cons cur (nxt ∷ rest)))
      ∙ reverse-reverse (cur ∷ nxt ∷ rest)

place_clean :
    (anchor : ℕ) (sequential : List Segment) (s : Segment)
    → anchor ≤ s.start
    → s.start < s.end
    → s.end ≤ s.start + max_segment_duration
    → place (anchor, sequential) s ≡ (s.end, s ∷ sequential)
unfolding place cap_end
place_clean anchor sequential s h k l = ground arith

place_all_clean :
    (anchor : ℕ) (sequential xs : List Segment)
    → All (λ t. anchor ≤ t.start) xs
    → IsTimeline xs
    → (place_all (anchor, sequential) xs).1 ≡ reverse xs ++ sequential
unfolding place_all
place_all_clean anchor sequential [] a h = refl
place_all_clean anchor sequential (x ∷ xs) a h =
    ap (λ (state : ℕ × List Segment). (place_all state xs).1)
      (place_clean anchor sequential x a.0 h.0.0 h.0.1)
    ∙ (place_all_clean x.end (x ∷ sequential) xs h.1 h.2
        ∙ sym (append_assoc (reverse xs) (x ∷ []) sequential)
        ∙ ap (λ (l : List Segment). l ++ sequential) (sym (reverse-cons x xs)))

zero_before : (xs : List Segment) → All (λ t. 0 ≤ t.start) xs
zero_before [] = tt
zero_before (x ∷ xs) = (omega arith, zero_before xs)

-- A list that is already a clean chain of long enough segments with texts comes back as it was.
pub normalize_segments_clean :
    (min_duration : ℕ) (xs : List Segment)
    → IsTimeline xs
    → All (λ s. has_text s ≡ true) xs
    → All (λ s. min_duration ≤ s.end - s.start) xs
    → normalize_segments min_duration xs ≡ xs
unfolding normalize_segments
normalize_segments_clean m xs h texts enough =
    rw
      (
        usable_clean xs h texts,
        merge_short_clean m xs enough,
        place_all_clean 0 [] xs (zero_before xs) h,
        append-nil,
      )
      (reverse-reverse xs)
