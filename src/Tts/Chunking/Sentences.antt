-- ===== src/Tts/Chunking/Sentences.antt =====
-- What app/services/chunking.py makes of the sentences of a text.
use ai_trans_clips_tts.Prelude.{
  ℕ, ◌+◌, ◌≤◌, ◌<◌, ◌≡◌, refl, sym, ap, ◌∙◌, inl, inr, Bool, true, false, ◌&&◌, List, [], ◌∷◌, ◌++◌,
  ltb, length, length-append, All, arith, Bool-cases, filter-All, map,
}
use ai_trans_clips_tts.Prelude.Text.{Text, strip}
use ai_trans_clips_tts.Tts.Chunking.{is_filled, sentences, pack, or_whole, split_text, cut}

-- The texts with a space between them.
unfoldable pub spaced : List Text → Text
spaced [] = []
spaced (s ∷ []) = s
spaced (s ∷ t ∷ rest) = s ++ 32 ∷ spaced (t ∷ rest)

append_assoc : (xs ys zs : Text) → (xs ++ ys) ++ zs ≡ xs ++ (ys ++ zs)
append_assoc [] ys zs = refl
append_assoc (x ∷ xs) ys zs = ap (λ (l : Text). x ∷ l) (append_assoc xs ys zs)

spaced-join :
    (a b : Text) (rest : List Text) → spaced ((a ++ 32 ∷ b) ∷ rest) ≡ spaced (a ∷ b ∷ rest)
unfolding spaced
spaced-join a b [] = refl
spaced-join a b (r ∷ rest) = append_assoc a (32 ∷ b) (32 ∷ spaced (r ∷ rest))

-- What is packed from a text that is not empty is a first chunk and more.
abbrev Starts : List Text → Type 0
Starts [] = ⊥
Starts (c ∷ cs) = Unit

spaced-cons :
    (a : Text) (rest : List Text) → Starts rest → spaced (a ∷ rest) ≡ a ++ 32 ∷ spaced rest
unfolding spaced
spaced-cons a [] h = absurd h
spaced-cons a (r ∷ rest) h = refl

abbrev IsShort : ℕ → Text → Type 0
IsShort max_chars s = length s ≤ max_chars

-- The chunks from `cur` on: they say what `cur` and the sentences say, and fit if these do.
pack_exact :
    (max_chars c : ℕ) (r : Text) (sents : List Text)
    → All (λ s. is_filled s ≡ true) sents
    → Starts (pack max_chars (c ∷ r) sents)
      × (spaced (pack max_chars (c ∷ r) sents) ≡ spaced ((c ∷ r) ∷ sents))
unfolding pack
pack_exact max_chars c r [] h = (tt, refl)
pack_exact max_chars c r ([] ∷ sents) h = absurd (ground (arith, h.0))
pack_exact max_chars c r ((d ∷ t) ∷ sents) h =
    elim (Bool-cases (ltb max_chars (length (c ∷ r) + length (d ∷ t) + 1))) [
      | inl full ↦
          let (starts, same) = pack_exact max_chars d t sents h.1 in
          rw full (
            tt,
            spaced-cons (c ∷ r) (pack max_chars (d ∷ t) sents) starts
                ∙ ap (λ (l : Text). (c ∷ r) ++ 32 ∷ l) same
                ∙ sym (spaced-cons (c ∷ r) ((d ∷ t) ∷ sents) tt),
          )
      | inr room ↦
          let (starts, same) = pack_exact max_chars c (r ++ 32 ∷ d ∷ t) sents h.1 in
          rw room (starts, same ∙ spaced-join (c ∷ r) (d ∷ t) sents)
    ]

pack_fits :
    (max_chars c : ℕ) (r : Text) (sents : List Text)
    → All (λ s. is_filled s ≡ true) sents
    → length (c ∷ r) ≤ max_chars
    → All (IsShort max_chars) sents
    → All (IsShort max_chars) (pack max_chars (c ∷ r) sents)
unfolding pack
pack_fits max_chars c r [] h fits all = (fits, tt)
pack_fits max_chars c r ([] ∷ sents) h fits all = absurd (ground (arith, h.0))
pack_fits max_chars c r ((d ∷ t) ∷ sents) h fits all =
    elim (Bool-cases (ltb max_chars (length (c ∷ r) + length (d ∷ t) + 1))) [
      | inl full ↦ rw full (fits, pack_fits max_chars d t sents h.1 all.0 all.1)
      | inr room ↦
          let within : length (c ∷ r) + length (d ∷ t) + 1 ≤ max_chars = ground (arith, room) in
          rw room (
            pack_fits max_chars c (r ++ 32 ∷ d ∷ t) sents h.1
              (omega (arith, within, length-append r (32 ∷ d ∷ t))) all.1)
    ]

and_false : (b : Bool) → (b && false) ≡ false
and_false true = refl
and_false false = refl

pack_first :
    (max_chars : ℕ) (s : Text) (sents : List Text)
    → pack max_chars [] (s ∷ sents) ≡ pack max_chars s sents
unfolding pack
pack_first max_chars s sents = rw (and_false (ltb max_chars (0 + length s + 1))) refl

whole-Starts : (text : Text) (chunks : List Text) → Starts chunks → or_whole text chunks ≡ chunks
unfolding or_whole
whole-Starts text [] h = absurd h
whole-Starts text (c ∷ cs) h = refl

nonempty-Starts : (l : List Text) → 0 < length l → Starts l
nonempty-Starts [] h = absurd (omega (arith, h))
nonempty-Starts (c ∷ cs) h = tt

split_filled :
    (text : Text) (max_chars : ℕ) (sents : List Text)
    → All (λ s. is_filled s ≡ true) sents
    → Starts sents
    → All (IsShort max_chars) sents
    → All (IsShort max_chars) (or_whole text (pack max_chars [] sents))
      × (spaced (or_whole text (pack max_chars [] sents)) ≡ spaced sents)
split_filled text max_chars [] h s all = absurd s
split_filled text max_chars ([] ∷ sents) h s all = absurd (ground (arith, h.0))
split_filled text max_chars ((c ∷ r) ∷ sents) h s all =
    let (starts, same) = pack_exact max_chars c r sents h.1 in
    rw (pack_first max_chars (c ∷ r) sents, whole-Starts text (pack max_chars (c ∷ r) sents) starts)
      (pack_fits max_chars c r sents h.1 all.0 all.1, same)

-- A text with a sentence, all of whose sentences fit, is cut into chunks that fit, and the chunks
-- say what the sentences say, in order and with a space between each two.
pub split_text_exact :
    (text : Text) (max_chars : ℕ)
    → 0 < length (sentences text)
    → All (λ s. length s ≤ max_chars) (sentences text)
    → All (λ s. length s ≤ max_chars) (split_text text max_chars)
      × (spaced (split_text text max_chars) ≡ spaced (sentences text))
unfolding split_text
split_text_exact text max_chars some_sentence short =
    split_filled text max_chars (sentences text)
      (unfold sentences in filter-All is_filled (map strip (cut text)))
      (nonempty-Starts (sentences text) some_sentence) short
