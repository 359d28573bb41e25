-- ===== src/Pipeline/Segments.antt =====
-- pipeline-worker/segments.py and the Segment of pipeline-worker/schemas.py. Times are milliseconds
-- (the schema refuses negative ones), texts are lists of code points. A list that the code appends
-- to, and whose last element it takes off or changes, is kept newest first here.
pub mod Timeline
pub mod Merging
pub mod Content
pub mod Clean
use ai_trans_clips_tts.Prelude.{
  ℕ, ◌+◌, ◌-◌, Bool, true, false, not, ◌&&◌, ◌||◌, List, [], ◌∷◌, ◌++◌, if◌then◌else◌, ltb, leb,
  filter,
}
use ai_trans_clips_tts.Prelude.Sorting.{sort}
use ai_trans_clips_tts.Prelude.Text.{strip}
use mathlib.Core.List.{reverse}

pub record Segment : Type 0 where
  pub start : ℕ
  pub end : ℕ
  pub source_text : List ℕ
  pub target_text : List ℕ

-- MAX_SEGMENT_DURATION, its default
abbrev pub max_segment_duration : ℕ
max_segment_duration = 8000

abbrev is_empty : List ℕ → Bool
is_empty [] = true
is_empty (c ∷ s) = false

unfoldable pub has_text : Segment → Bool
has_text s = not (is_empty (strip s.source_text)) && not (is_empty (strip s.target_text))

-- `f"{a} {b}".strip()`
unfoldable pub join_text : List ℕ → List ℕ → List ℕ
join_text a b = strip (a ++ 32 ∷ b)

-- From the start of the one to the end of the other, with both texts.
unfoldable pub join : Segment → Segment → Segment
unfolding join_text
join a b = record {
  start = a.start;
  end = b.end;
  source_text = join_text a.source_text b.source_text;
  target_text = join_text a.target_text b.target_text;
}

-- The last segment of the list, when it is short: it goes into the one before it.
unfoldable pub merge_last : List Segment → Segment → List Segment
unfolding join
merge_last [] cur = cur ∷ []
merge_last (prev ∷ merged) cur = join prev cur ∷ merged

abbrev pub is_long : ℕ → Segment → Bool
is_long min_duration cur = leb min_duration (cur.end - cur.start)

-- The `while` loop at `cur`, with the rest of the list behind it; `single` is `len(segs) == 1`.
unfoldable pub merge_from : ℕ → Bool → List Segment → Segment → List Segment → List Segment
unfolding merge_last
merge_from min_duration single merged cur [] =
    if is_long min_duration cur || single then cur ∷ merged else merge_last merged cur
merge_from min_duration single merged cur (nxt ∷ rest) =
    let keep = is_long min_duration cur || single in
    merge_from min_duration single (if keep then cur ∷ merged else merged)
      (if keep then nxt else join cur nxt) rest

-- A segment that has no time left gives its text to the one before it.
unfoldable pub fold_text : Segment → Segment → Segment
unfolding join_text
fold_text prev s = record prev {
  target_text = join_text prev.target_text s.target_text;
  source_text = join_text prev.source_text s.source_text;
}

unfoldable pub fold_degenerate : List Segment → Segment → List Segment
unfolding fold_text
fold_degenerate [] s = record s { end = s.start + 500 } ∷ []
fold_degenerate (prev ∷ rest) s = fold_text prev s ∷ rest

unfoldable pub cap_end : Segment → Segment
cap_end s =
    if ltb max_segment_duration (s.end - s.start)
    then record s { end = s.start + max_segment_duration }
    else s

-- The body of the last loop, over the pair of `anchor` and `sequential`.
unfoldable pub place : ℕ × List Segment → Segment → ℕ × List Segment
unfolding fold_degenerate cap_end
place (anchor, sequential) s0 =
    let s : Segment = record s0 { start = if ltb s0.start anchor then anchor else s0.start } in
    if leb s.end s.start
    then (anchor, fold_degenerate sequential s)
    else ((cap_end s).end, cap_end s ∷ sequential)

unfoldable pub place_all : ℕ × List Segment → List Segment → ℕ × List Segment
unfolding place
place_all state [] = state
place_all state (s ∷ rest) = place_all (place state s) rest

abbrev pub starts_before : Segment → Segment → Bool
starts_before a b = leb a.start b.start

-- Both filters and the sort.
unfoldable pub usable : List Segment → List Segment
unfolding has_text
usable segments = sort starts_before (filter (λ s. ltb s.start s.end) (filter has_text segments))

unfoldable pub merge_short : ℕ → List Segment → List Segment
unfolding merge_from
merge_short min_duration [] = []
merge_short min_duration (cur ∷ []) = reverse (merge_from min_duration true [] cur [])
merge_short min_duration (cur ∷ nxt ∷ rest) =
    reverse (merge_from min_duration false [] cur (nxt ∷ rest))

unfoldable pub normalize_segments : ℕ → List Segment → List Segment
unfolding usable merge_short place_all
normalize_segments min_duration segments =
    reverse (place_all (0, []) (merge_short min_duration (usable segments))).1
