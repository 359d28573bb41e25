-- ===== src/Pipeline/Segments/Content.antt =====
-- No caption text is lost in pipeline-worker/segments.py: merging and folding move words, and
-- change white space only.
use mathlib.Core.List.{reverse, reverse-append, reverse-reverse, append-nil, append_assoc}
use ai_trans_clips_tts.Prelude.{
  ℕ, ◌+◌, ◌-◌, Bool, true, false, not, ◌||◌, List, [], ◌∷◌, ◌++◌, ◌≡◌, refl, sym, ap, ◌∙◌, inl, inr,
  arith, if◌then◌else◌, ltb, leb, filter, Bool-cases,
}
use ai_trans_clips_tts.Prelude.Text.{is_space, lstrip, strip}
use ai_trans_clips_tts.Pipeline.Segments.{
  Segment, join_text, join, merge_last, merge_from, is_long, fold_text, fold_degenerate, cap_end,
  place, place_all, merge_short, usable, normalize_segments,
}

-- The characters of a text that are not white space.
abbrev pub glyphs : List ℕ → List ℕ
glyphs s = filter (λ c. not (is_space c)) s

glyphs-append : (a b : List ℕ) → glyphs (a ++ b) ≡ glyphs a ++ glyphs b
glyphs-append [] b = refl
glyphs-append (c ∷ a) b = ground (arith, glyphs-append a b)

glyphs-reverse : (s : List ℕ) → glyphs (reverse s) ≡ reverse (glyphs s)
glyphs-reverse [] = refl
glyphs-reverse (c ∷ s) = elim (Bool-cases (is_space c)) [
  | inl e ↦
      rw (reverse-append (c ∷ []) s, glyphs-append (reverse s) (c ∷ []), e, append-nil)
        (glyphs-reverse s)
  | inr e ↦
      rw (reverse-append (c ∷ []) s, glyphs-append (reverse s) (c ∷ []), e)
        (rw (reverse-append (c ∷ []) (glyphs s), glyphs-reverse s) refl)
]

glyphs-lstrip : (s : List ℕ) → glyphs (lstrip s) ≡ glyphs s
unfolding lstrip
glyphs-lstrip [] = refl
glyphs-lstrip (c ∷ s) = ground (arith, glyphs-lstrip s)

glyphs-strip : (s : List ℕ) → glyphs (strip s) ≡ glyphs s
unfolding strip
glyphs-strip s =
    rw (glyphs-reverse, glyphs-lstrip, glyphs-reverse, glyphs-lstrip, reverse-reverse) refl

glyphs-join_text : (a b : List ℕ) → glyphs (join_text a b) ≡ glyphs a ++ glyphs b
unfolding join_text is_space
glyphs-join_text a b = glyphs-strip (a ++ 32 ∷ b) ∙ glyphs-append a (32 ∷ b)

-- One of the two captions of a segment, and what the operations do to it.
record IsCaption (f : Segment → List ℕ) : Type 0 where
  at_join : (a b : Segment) → glyphs (f (join a b)) ≡ glyphs (f a) ++ glyphs (f b)
  at_fold : (a b : Segment) → glyphs (f (fold_text a b)) ≡ glyphs (f a) ++ glyphs (f b)
  at_times : (s : Segment) (start end : ℕ) → f (record s { start = start; end = end }) ≡ f s

source-IsCaption : IsCaption (λ s. s.source_text)
unfolding join fold_text
source-IsCaption = record {
  at_join = λ a b. glyphs-join_text a.source_text b.source_text;
  at_fold = λ a b. glyphs-join_text a.source_text b.source_text;
  at_times = λ s start end. refl;
}

target-IsCaption : IsCaption (λ s. s.target_text)
unfolding join fold_text
target-IsCaption = record {
  at_join = λ a b. glyphs-join_text a.target_text b.target_text;
  at_fold = λ a b. glyphs-join_text a.target_text b.target_text;
  at_times = λ s start end. refl;
}

-- What the captions of a list say, in order.
abbrev pub content : (Segment → List ℕ) → List Segment → List ℕ
content f [] = []
content f (s ∷ rest) = glyphs (f s) ++ content f rest

-- The same of a list that is kept newest first.
abbrev said : (Segment → List ℕ) → List Segment → List ℕ
said f [] = []
said f (s ∷ rest) = said f rest ++ glyphs (f s)

module _ {f : Segment → List ℕ} (caption : IsCaption f) where
  content-snoc :
      (xs : List Segment) (s : Segment) → content f (xs ++ s ∷ []) ≡ content f xs ++ glyphs (f s)
  content-snoc [] s = append-nil (glyphs (f s))
  content-snoc (x ∷ xs) s =
      rw (content-snoc xs s) (sym (append_assoc (glyphs (f x)) (content f xs) (glyphs (f s))))

  content-reverse : (xs : List Segment) → content f (reverse xs) ≡ said f xs
  content-reverse [] = refl
  content-reverse (x ∷ xs) =
      rw (reverse-append (x ∷ []) xs)
        (content-snoc (reverse xs) x ∙ ap (λ (l : List ℕ). l ++ glyphs (f x)) (content-reverse xs))

  said-merge_last :
      (merged : List Segment) (cur : Segment)
      → said f (merge_last merged cur) ≡ said f merged ++ glyphs (f cur)
  unfolding merge_last
  said-merge_last [] cur = refl
  said-merge_last (prev ∷ merged) cur =
      rw (caption.at_join prev cur)
        (sym (append_assoc (said f merged) (glyphs (f prev)) (glyphs (f cur))))

  said-merge_from :
      (m : ℕ) (single : Bool) (merged : List Segment) (cur : Segment) (rest : List Segment)
      → said f (merge_from m single merged cur rest)
        ≡ said f merged ++ (glyphs (f cur) ++ content f rest)
  unfolding merge_from
  said-merge_from m single merged cur [] = elim (Bool-cases (is_long m cur || single)) [
    | inl keep ↦ rw (keep, append-nil)
    | inr short ↦ rw (short, append-nil) (said-merge_last merged cur)
  ]
  said-merge_from m single merged cur (nxt ∷ rest) = elim (Bool-cases (is_long m cur || single)) [
    | inl keep ↦ rw keep (
        said-merge_from m single (cur ∷ merged) nxt rest
        ∙ append_assoc (said f merged) (glyphs (f cur)) (glyphs (f nxt) ++ content f rest))
    | inr short ↦ rw short (
        said-merge_from m single merged (join cur nxt) rest
        ∙ rw (caption.at_join cur nxt, append_assoc (glyphs (f cur))) refl)
  ]

  content-merge_short :
      (m : ℕ) (segments : List Segment) → content f (merge_short m segments) ≡ content f segments
  unfolding merge_short
  content-merge_short m [] = refl
  content-merge_short m (cur ∷ []) =
      content-reverse (merge_from m true [] cur []) ∙ said-merge_from m true [] cur []
  content-merge_short m (cur ∷ nxt ∷ rest) =
      content-reverse (merge_from m false [] cur (nxt ∷ rest))
      ∙ said-merge_from m false [] cur (nxt ∷ rest)

  at_cap_end : (s : Segment) → f (cap_end s) ≡ f s
  unfolding cap_end
  at_cap_end s = elim (Bool-cases (ltb 8000 (s.end - s.start))) [
    | inl long ↦ rw long (caption.at_times s s.start (s.start + 8000))
    | inr short ↦ rw short refl
  ]

  said-fold_degenerate :
      (sequential : List Segment) (s : Segment)
      → said f (fold_degenerate sequential s) ≡ said f sequential ++ glyphs (f s)
  unfolding fold_degenerate
  said-fold_degenerate [] s = ap glyphs (caption.at_times s s.start (s.start + 500))
  said-fold_degenerate (prev ∷ rest) s =
      rw (caption.at_fold prev s)
        (sym (append_assoc (said f rest) (glyphs (f prev)) (glyphs (f s))))

  said-place :
      (anchor : ℕ) (sequential : List Segment) (s : Segment)
      → said f (place (anchor, sequential) s).1 ≡ said f sequential ++ glyphs (f s)
  unfolding place
  said-place anchor sequential s =
      let start : ℕ = if ltb s.start anchor then anchor else s.start in
      let moved : Segment = record s { start = start } in
      elim (Bool-cases (leb s.end start)) [
        | inl late ↦ rw late (
            said-fold_degenerate sequential moved
            ∙ ap (λ (t : List ℕ). said f sequential ++ glyphs t) (caption.at_times s start s.end))
        | inr fits ↦ rw fits (
            ap (λ (t : List ℕ). said f sequential ++ glyphs t)
              (at_cap_end moved ∙ caption.at_times s start s.end))
      ]

  said-place_all :
      (state : ℕ × List Segment) (segments : List Segment)
      → said f (place_all state segments).1 ≡ said f state.1 ++ content f segments
  unfolding place_all
  said-place_all state [] = sym (append-nil (said f state.1))
  said-place_all (anchor, sequential) (s ∷ rest) =
      said-place_all (place (anchor, sequential) s) rest
      ∙ ap (λ (t : List ℕ). t ++ content f rest) (said-place anchor sequential s)
      ∙ append_assoc (said f sequential) (glyphs (f s)) (content f rest)

  content-normalize :
      (m : ℕ) (segments : List Segment)
      → content f (normalize_segments m segments) ≡ content f (usable segments)
  unfolding normalize_segments
  content-normalize m segments =
      content-reverse (place_all (0, []) (merge_short m (usable segments))).1
      ∙ said-place_all (0, []) (merge_short m (usable segments))
      ∙ content-merge_short m (usable segments)

-- The captions say, white space aside, what the usable segments said in the order of their starts:
-- nothing of the speech or of its translation is lost, repeated or put in another order.
pub normalize_segments-content :
    (min_duration : ℕ) (segments : List Segment)
    → (content (λ s. s.source_text) (normalize_segments min_duration segments)
        ≡ content (λ s. s.source_text) (usable segments))
      × (content (λ s. s.target_text) (normalize_segments min_duration segments)
          ≡ content (λ s. s.target_text) (usable segments))
normalize_segments-content m segments =
    (content-normalize source-IsCaption m segments, content-normalize target-IsCaption m segments)
