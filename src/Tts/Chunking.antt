-- ===== src/Tts/Chunking.antt =====
-- app/services/chunking.py: a text cut into chunks of whole sentences. The regular expression splits
-- behind every sentence end and swallows the white space that follows; the model cuts behind every
-- sentence end, and what it leaves of white space falls to the `strip` and the filter.
pub mod Sentences
use ai_trans_clips_tts.Prelude.{
  ℕ, ◌+◌, Bool, true, false, ◌&&◌, not, List, [], ◌∷◌, ◌++◌, if◌then◌else◌, ltb, length, filter,
  map, any, nat_eq, ◌==◌,
}
use ai_trans_clips_tts.Prelude.Text.{Text, strip}

-- . ! ? 。 ！ ？ and the newline
unfoldable pub ends_sentence : ℕ → Bool
ends_sentence c = any (λ x. x == c) (46 ∷ 33 ∷ 63 ∷ 12290 ∷ 65281 ∷ 65311 ∷ 10 ∷ [])

unfoldable pub prepend : ℕ → List Text → List Text
prepend c [] = (c ∷ []) ∷ []
prepend c (piece ∷ pieces) = (c ∷ piece) ∷ pieces

unfoldable pub cut : Text → List Text
unfolding ends_sentence prepend
cut [] = []
cut (c ∷ text) = if ends_sentence c then (c ∷ []) ∷ cut text else prepend c (cut text)

abbrev pub is_filled : Text → Bool
is_filled [] = false
is_filled (c ∷ text) = true

-- `[s.strip() for s in sents if s.strip()]`
unfoldable pub sentences : Text → List Text
unfolding cut
sentences text = filter is_filled (map strip (cut text))

-- The loop over the sentences, with what is in `cur`.
unfoldable pub pack : ℕ → Text → List Text → List Text
pack max_chars cur [] = if is_filled cur then cur ∷ [] else []
pack max_chars cur (s ∷ sents) =
    let flush = ltb max_chars (length cur + length s + 1) && is_filled cur in
    let rest =
      pack max_chars (if flush then s else if is_filled cur then cur ++ 32 ∷ s else s) sents in
    if flush then cur ∷ rest else rest

-- `chunks or [text]`
unfoldable pub or_whole : Text → List Text → List Text
or_whole text [] = text ∷ []
or_whole text (chunk ∷ chunks) = chunk ∷ chunks

unfoldable pub split_text : Text → ℕ → List Text
unfolding sentences pack or_whole
split_text text max_chars = or_whole text (pack max_chars [] (sentences text))
