-- ===== src/Prelude/Text.antt =====
-- Python's text operations, on texts as lists of code points and on native strings.
use Prim.Native.Nat.{ℕ, zero, suc, ◌+◌, ◌-◌, ◌*◌, ◌/◌, ◌%◌}
use Prim.Native.Char.{code}
use mathlib.Core.Path.{◌≡◌, refl}
use mathlib.Core.Option
use mathlib.Core.Option.{Option, some, none}
use ai_trans_clips_tts.Prelude.Int.{ℤ, pos, negsuc, negate}
use Prim.Native.String.{String, []}
use mathlib.Core.Bool.{Bool, true, false, ◌||◌, ◌&&◌}
use mathlib.Core.List.{List, ◌∷◌, reverse}
use ai_trans_clips_tts.Prelude.Tests.{leb, if◌then◌else◌}
use ai_trans_clips_tts.Prelude.Keys.{◌==◌, nat_eq}

-- `str.isspace` of one code point.
unfoldable pub is_space : ℕ → Bool
is_space c =
    (leb 9 c && leb c 13)
    || (leb 28 c && leb c 32)
    || c == 133
    || c == 160
    || c == 5760
    || (leb 8192 c && leb c 8202)
    || c == 8232
    || c == 8233
    || c == 8239
    || c == 8287
    || c == 12288

unfoldable pub lstrip : List ℕ → List ℕ
unfolding is_space
lstrip List.[] = List.[]
lstrip (c ∷ s) = if is_space c then lstrip s else c ∷ s

-- `s.strip()`
unfoldable pub strip : List ℕ → List ℕ
unfolding lstrip
strip s = reverse (lstrip (reverse (lstrip s)))

-- `s[:n]`
unfoldable pub truncate : ℕ → String → String
truncate zero s = ""
truncate (suc n) [] = ""
truncate (suc n) (String.◌∷◌ c s) = String.◌∷◌ c (truncate n s)

-- A text as the list of its code points.
abbrev pub Text : Type 0
Text = List ℕ

abbrev pub codes : String → Text
codes [] = List.[]
codes (String.◌∷◌ c s) = code c ∷ codes s

-- `s.lower()` and `s.upper()` on ASCII; other characters are left alone.
unfoldable pub lower : Text → Text
lower List.[] = List.[]
lower (c ∷ s) = (if leb 65 c && leb c 90 then c + 32 else c) ∷ lower s

unfoldable pub upper : Text → Text
upper List.[] = List.[]
upper (c ∷ s) = (if leb 97 c && leb c 122 then c - 32 else c) ∷ upper s

-- `s.isascii()`
unfoldable pub is_ascii : Text → Bool
is_ascii List.[] = true
is_ascii (c ∷ s) = leb c 127 && is_ascii s

abbrev pub is_digit : ℕ → Bool
is_digit c = leb 48 c && leb c 57

-- Digits with single underscores between them; `ready` says that a digit stood before.
unfoldable pub digits_from : Bool → ℕ → Text → Option ℕ
digits_from ready n List.[] = if ready then some n else none
digits_from ready n (c ∷ s) =
    if is_digit c || (c == 95 && ready)
    then digits_from (is_digit c) (if is_digit c then n * 10 + (c - 48) else n) s
    else none

unfoldable pub signed_from : Text → Option ℤ
unfolding digits_from
signed_from List.[] = none
signed_from (c ∷ s) =
    if c == 45
    then Option.map negate (digits_from false 0 s)
    else Option.map pos (digits_from false 0 (if c == 43 then s else c ∷ s))

-- `int(s)`, with None for a ValueError: white space round it, a sign, digits. Digits beyond ASCII
-- are not read.
unfoldable pub parse_int : Text → Option ℤ
unfolding strip signed_from
parse_int s = signed_from (strip s)

parse_int_samples :
    (parse_int (codes " 1_700 ") ≡ some (pos 1700))
    × (parse_int (codes "-5") ≡ some (negsuc 4))
    × (parse_int (codes "1__0") ≡ none)
    × (parse_int (codes "12a") ≡ none)
    × (parse_int (codes "") ≡ none)
unfolding parse_int
parse_int_samples = (refl, refl, refl, refl, refl)

-- `a < b` and `a <= b` of texts: by the first code point that differs.
unfoldable pub text_leb : Text → Text → Bool
text_leb List.[] t = true
text_leb (c ∷ s) List.[] = false
text_leb (c ∷ s) (d ∷ t) = if c == d then text_leb s t else leb c d

-- `s.split(sep)` for a separator of one character.
abbrev prepend : ℕ → List Text → List Text
prepend c List.[] = (c ∷ List.[]) ∷ List.[]
prepend c (part ∷ parts) = (c ∷ part) ∷ parts

unfoldable pub split : ℕ → Text → List Text
split sep List.[] = List.[] ∷ List.[]
split sep (c ∷ s) = let rest = split sep s in if c == sep then List.[] ∷ rest else prepend c rest

-- `s.startswith(prefix)`
unfoldable pub starts_with : Text → Text → Bool
starts_with List.[] s = true
starts_with (c ∷ prefix) List.[] = false
starts_with (c ∷ prefix) (d ∷ s) = c == d && starts_with prefix s

-- `part in s`
unfoldable pub contains : Text → Text → Bool
unfolding starts_with
contains part List.[] = starts_with part List.[]
contains part (c ∷ s) = starts_with part (c ∷ s) || contains part s

abbrev pub is_blank : Text → Bool
is_blank List.[] = true
is_blank (c ∷ s) = false

split_samples :
    (split 44 (codes "a,,b") ≡ codes "a" ∷ codes "" ∷ codes "b" ∷ List.[])
    × (contains (codes "quota") (codes "the quota is out") ≡ true)
    × (contains (codes "quota") (codes "a quot") ≡ false)
unfolding split contains
split_samples = (refl, refl, refl)

-- The decimal digits of a number; as much fuel as the number and one is enough.
unfoldable pub digits : ℕ → ℕ → Text → Text
digits zero n tail = tail
digits (suc fuel) n tail = elim (n / 10) [
  | zero ↦ (48 + n % 10) ∷ tail
  | suc q ↦ digits fuel (suc q) ((48 + n % 10) ∷ tail)
]

-- `str(n)`
unfoldable pub show : ℕ → Text
unfolding digits
show n = digits (n + 1) n List.[]
