-- ===== src/Pipeline/Segments/Merging.antt =====
-- What the merge of short segments in pipeline-worker/segments.py keeps: every segment ends behind
-- its start, so the branch of the last loop that would append a degenerate segment is never taken.
use ai_trans_clips_tts.Prelude.{
  ℕ, ◌≤◌, ◌<◌, Bool, true, false, ◌||◌, List, [], ◌∷◌, ◌≡◌, refl, inl, inr, arith, ltb, All,
  All-weaken, filter, filter-All, ltb→lt, leb→le, Bool-cases,
}
use ai_trans_clips_tts.Prelude.Sorting.{sort-All, sort-IsSorted, IsSorted}
use ai_trans_clips_tts.Pipeline.Segments.{
  Segment, has_text, join, merge_last, merge_from, is_long, starts_before, usable, merge_short,
  place_all, normalize_segments,
}
use ai_trans_clips_tts.Pipeline.Segments.Timeline.{
  All-reverse, IsTimeline, IsReversed-reverse, place_all-IsPlaced,
}

abbrev IsForward : Segment → Type 0
IsForward s = s.start < s.end

join-IsForward : (a b : Segment) → a.start ≤ b.start → IsForward b → IsForward (join a b)
unfolding join
join-IsForward a b h k = omega arith

start-join : (a b : Segment) → (join a b).start ≡ a.start
unfolding join
start-join a b = refl

-- What is merged began no later than the current segment, and that no later than the rest.
record IsMerging (merged : List Segment) (cur : Segment) (rest : List Segment) : Type 0 where
  past : All (λ p. p.start ≤ cur.start) merged
  past_forward : All IsForward merged
  forward : IsForward cur
  later : All (λ t. cur.start ≤ t.start) rest
  later_forward : All IsForward rest
  sorted : IsSorted starts_before rest

merge_last-IsForward :
    (merged : List Segment) (cur : Segment)
    → IsMerging merged cur []
    → All IsForward (merge_last merged cur)
unfolding merge_last
merge_last-IsForward [] cur v = (v.forward, tt)
merge_last-IsForward (prev ∷ merged) cur v =
    (join-IsForward prev cur v.past.0 v.forward, v.past_forward.1)

merge_from-IsForward :
    (min_duration : ℕ) (single : Bool) (merged : List Segment) (cur : Segment) (rest : List Segment)
    → IsMerging merged cur rest
    → All IsForward (merge_from min_duration single merged cur rest)
unfolding merge_from
merge_from-IsForward m single merged cur [] v = elim (Bool-cases (is_long m cur || single)) [
  | inl keep ↦ rw keep (v.forward, v.past_forward)
  | inr short ↦ rw short (merge_last-IsForward merged cur v)
]
merge_from-IsForward m single merged cur (nxt ∷ rest) v =
    let le_next =
      All-weaken (λ t. starts_before nxt t ≡ true) (λ t. nxt.start ≤ t.start) rest
        (λ t h. leb→le nxt.start t.start h) v.sorted.0 in
    elim (Bool-cases (is_long m cur || single)) [
      | inl keep ↦ rw keep (
          merge_from-IsForward m single (cur ∷ merged) nxt rest record {
            past = (
              v.later.0,
              All-weaken (λ p. p.start ≤ cur.start) (λ p. p.start ≤ nxt.start) merged
                  (λ p h. omega (arith, v.later.0)) v.past,
            );
            past_forward = (v.forward, v.past_forward);
            forward = v.later_forward.0;
            later = le_next;
            later_forward = v.later_forward.1;
            sorted = v.sorted.1;
          })
      | inr short ↦ rw short (
          merge_from-IsForward m single merged (join cur nxt) rest record {
            past = rw (start-join cur nxt) v.past;
            past_forward = v.past_forward;
            forward = join-IsForward cur nxt v.later.0 v.later_forward.0;
            later = rw (start-join cur nxt) v.later.1;
            later_forward = v.later_forward.1;
            sorted = v.sorted.1;
          })
    ]

merge_short-IsForward :
    (min_duration : ℕ) (segments : List Segment)
    → All IsForward segments
    → IsSorted starts_before segments
    → All IsForward (merge_short min_duration segments)
unfolding merge_short
merge_short-IsForward m [] h s = tt
merge_short-IsForward m (cur ∷ []) h s = All-reverse IsForward (merge_from m true [] cur []) (
    merge_from-IsForward m true [] cur [] record {
      past = tt;
      past_forward = tt;
      forward = h.0;
      later = tt;
      later_forward = tt;
      sorted = tt;
    })
merge_short-IsForward m (cur ∷ nxt ∷ rest) h s =
    All-reverse IsForward (merge_from m false [] cur (nxt ∷ rest)) (
      merge_from-IsForward m false [] cur (nxt ∷ rest) record {
        past = tt;
        past_forward = tt;
        forward = h.0;
        later =
            All-weaken (λ t. starts_before cur t ≡ true) (λ t. cur.start ≤ t.start) (nxt ∷ rest)
              (λ t k. leb→le cur.start t.start k) s.0;
        later_forward = h.1;
        sorted = s.1;
      })

usable-IsForward : (segments : List Segment) → All IsForward (usable segments)
unfolding usable
usable-IsForward segments =
    let given = filter has_text segments in
    let forward = λ (s : Segment). ltb s.start s.end in
    sort-All starts_before IsForward (filter forward given) (
      All-weaken (λ s. forward s ≡ true) IsForward (filter forward given)
        (λ s h. ltb→lt s.start s.end h) (filter-All forward given))

starts_before_total : (a b : Segment) → starts_before a b ≡ false → starts_before b a ≡ true
starts_before_total a b h = ground arith

starts_before_trans :
    (a b c : Segment)
    → starts_before a b ≡ true
    → starts_before b c ≡ true
    → starts_before a c ≡ true
starts_before_trans a b c h k = ground arith

pub usable-IsSorted : (segments : List Segment) → IsSorted starts_before (usable segments)
unfolding usable
usable-IsSorted segments = sort-IsSorted starts_before starts_before_total starts_before_trans _

merged-IsForward :
    (min_duration : ℕ) (segments : List Segment)
    → All IsForward (merge_short min_duration (usable segments))
merged-IsForward m segments =
    merge_short-IsForward m (usable segments) (usable-IsForward segments) (usable-IsSorted segments)

-- Whatever the model reported, the result is one clean chain: slots of positive length that are no
-- longer than the cap, in order, none beginning before the one in front of it has ended.
pub normalize_segments-IsTimeline :
    (min_duration : ℕ) (segments : List Segment)
    → IsTimeline (normalize_segments min_duration segments)
unfolding normalize_segments
normalize_segments-IsTimeline m segments =
    let merged = merge_short m (usable segments) in
    let placed =
      place_all-IsPlaced (0, []) merged (merged-IsForward m segments)
        record { slots = tt; before = tt; begins = λ _. refl } in
    IsReversed-reverse (place_all (0, []) merged).1 placed.slots
