-- ===== src/Prelude/Digits.antt =====
-- Python reads back the numbers that it writes.
use Prim.Native.Nat.{ℕ, zero, suc, ◌+◌, ◌-◌, ◌*◌, ◌/◌, ◌%◌, ◌<◌}
use mathlib.Core.Path.{◌≡◌, refl, ap, ◌∙◌}
use mathlib.Core.Bool.{Bool, true, false}
use mathlib.Core.Option
use mathlib.Core.Option.{some}
use mathlib.Core.List.{[], ◌∷◌, reverse, reverse_aux, reverse-reverse}
use native.Mathlib.Omega.{arith}
use ai_trans_clips_tts.Prelude.Keys.{nat_eq}
use ai_trans_clips_tts.Prelude.Int.{pos}
use ai_trans_clips_tts.Prelude.Lists.{All}
use ai_trans_clips_tts.Prelude.Text.{
  Text, digits, show, digits_from, signed_from, parse_int, is_digit, is_space, lstrip, strip,
}

digits_from-digit :
    (ready : Bool) (n d : ℕ) (s : Text)
    → d < 10
    → digits_from ready n ((48 + d) ∷ s) ≡ digits_from true (n * 10 + d) s
unfolding digits_from
digits_from-digit ready n d s h =
    let digit : is_digit (48 + d) ≡ true = ground arith in
    rw digit (ap (λ (m : ℕ). digits_from true m s) {x = n * 10 + (48 + d - 48)} (omega arith))

-- One digit more, at the quotient `q`.
digits_step :
    (ready : Bool) (fuel n q : ℕ) (tail : Text)
    → ((m : ℕ) (rest : Text)
        → m < fuel
        → digits_from ready 0 (digits fuel m rest) ≡ digits_from true m rest)
    → n < suc fuel
    → n / 10 ≡ q
    → digits_from ready 0 (elim q [
      | zero ↦ (48 + n % 10) ∷ tail
      | suc p ↦ digits fuel (suc p) ((48 + n % 10) ∷ tail)
    ])
      ≡ digits_from true n tail
digits_step ready fuel n zero tail ih h e =
    digits_from-digit ready 0 (n % 10) tail (omega arith)
    ∙ ap (λ (m : ℕ). digits_from true m tail) {x = 0 * 10 + n % 10} {y = n} (omega arith)
digits_step ready fuel n (suc p) tail ih h e =
    ih (suc p) ((48 + n % 10) ∷ tail) (omega arith)
    ∙ digits_from-digit true (suc p) (n % 10) tail (omega arith)
    ∙ ap (λ (m : ℕ). digits_from true m tail) {x = suc p * 10 + n % 10} {y = n} (omega arith)

digits_from-digits :
    (ready : Bool) (fuel n : ℕ) (tail : Text)
    → n < fuel
    → digits_from ready 0 (digits fuel n tail) ≡ digits_from true n tail
unfolding digits
digits_from-digits ready zero n tail h = absurd (omega arith)
digits_from-digits ready (suc fuel) n tail h =
    digits_step ready fuel n (n / 10) tail (digits_from-digits ready fuel) h refl

-- The digits are digits, and there is at least one.
abbrev IsDigits : Text → Type 0
IsDigits [] = ⊥
IsDigits (c ∷ s) = (is_digit c ≡ true) × All (λ d. is_digit d ≡ true) s

IsDigits-step :
    (fuel n q : ℕ) (tail : Text)
    → ((m : ℕ) (rest : Text)
        → m < fuel
        → All (λ d. is_digit d ≡ true) rest
        → IsDigits (digits fuel m rest))
    → n < suc fuel
    → All (λ d. is_digit d ≡ true) tail
    → n / 10 ≡ q
    → IsDigits (elim q [
      | zero ↦ (48 + n % 10) ∷ tail
      | suc p ↦ digits fuel (suc p) ((48 + n % 10) ∷ tail)
    ])
IsDigits-step fuel n zero tail ih h all e = (ground arith, all)
IsDigits-step fuel n (suc p) tail ih h all e =
    ih (suc p) ((48 + n % 10) ∷ tail) (omega arith) (ground arith, all)

digits-IsDigits :
    (fuel n : ℕ) (tail : Text)
    → n < fuel
    → All (λ d. is_digit d ≡ true) tail
    → IsDigits (digits fuel n tail)
unfolding digits
digits-IsDigits zero n tail h all = absurd (omega arith)
digits-IsDigits (suc fuel) n tail h all =
    IsDigits-step fuel n (n / 10) tail (digits-IsDigits fuel) h all refl

lstrip-digits : (s : Text) → IsDigits s → lstrip s ≡ s
unfolding lstrip is_space
lstrip-digits [] h = refl
lstrip-digits (c ∷ s) h = ground (arith, h.0)

All-digits : (s : Text) → IsDigits s → All (λ d. is_digit d ≡ true) s
All-digits [] h = tt
All-digits (c ∷ s) h = h

reverse_aux-IsDigits :
    (s r : Text) → All (λ d. is_digit d ≡ true) s → IsDigits r → IsDigits (reverse_aux s r)
reverse_aux-IsDigits [] r h k = k
reverse_aux-IsDigits (c ∷ s) r h k = reverse_aux-IsDigits s (c ∷ r) h.1 (h.0, All-digits r k)

reverse-IsDigits : (s : Text) → IsDigits s → IsDigits (reverse s)
reverse-IsDigits [] h = h
reverse-IsDigits (c ∷ s) h = reverse_aux-IsDigits s (c ∷ []) h.1 (h.0, tt)

strip-digits : (s : Text) → IsDigits s → strip s ≡ s
unfolding strip
strip-digits s h =
    ap (λ (t : Text). reverse (lstrip (reverse t))) (lstrip-digits s h)
    ∙ ap reverse (lstrip-digits (reverse s) (reverse-IsDigits s h))
    ∙ reverse-reverse s

signed_from-digits :
    (s : Text) → IsDigits s → signed_from s ≡ Option.map pos (digits_from false 0 s)
unfolding signed_from
signed_from-digits [] h = elim h [ ]
signed_from-digits (c ∷ s) h = ground (arith, h.0)

-- `int(str(n))` is `n`.
pub parse_int-show : (n : ℕ) → parse_int (show n) ≡ some (pos n)
unfolding parse_int show
parse_int-show n =
    let h = digits-IsDigits (n + 1) n [] (omega arith) tt in
    ap signed_from (strip-digits (digits (n + 1) n []) h)
    ∙ signed_from-digits (digits (n + 1) n []) h
    ∙ ap (Option.map pos) (digits_from-digits false (n + 1) n [] (omega arith))

pub show-IsFilled : (n : ℕ) → (c : ℕ) × (s : Text) × (show n ≡ c ∷ s)
unfolding show
show-IsFilled n = filled (digits (n + 1) n []) (digits-IsDigits (n + 1) n [] (omega arith) tt)
  where
    filled : (s : Text) → IsDigits s → (c : ℕ) × (t : Text) × (s ≡ c ∷ t)
    filled [] h = elim h [ ]
    filled (c ∷ t) h = (c, t, refl)
