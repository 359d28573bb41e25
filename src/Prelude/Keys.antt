-- ===== src/Prelude/Keys.antt =====
-- Keys with a Boolean equality, and Python's `==` on text and numbers as instances of it.
use Prim.Native.Nat.{ℕ, compare, Ordering}
use Prim.Native.String.{String}
use mathlib.Core.Path.{◌≡◌, refl}
use mathlib.Core.Logic.{◌↔◌}
use mathlib.Core.Bool.{Bool, true, false}
use mathlib.Core.Option.{Option, none, some}
use mathlib.Core.List.{List, [], ◌∷◌}
use ai_trans_clips_tts.Prelude.Tests.{if◌then◌else◌}
use native.Mathlib.Omega.{arith}
use text.Mathlib.Text.{◌==◌ as text_eqb}
use text.Mathlib.TextEquality.{eq_iff}

pub record HasEq {ℓ} (A : Type ℓ) : Type ℓ where
  pub eqb : A → A → Bool
  pub eqb_iff : (a b : A) → (eqb a b ≡ true) ↔ (a ≡ b)

infix 50 ◌==◌
abbrev pub ◌==◌ {ℓ} : {A : Type ℓ} ⦃e : HasEq A⦄ → A → A → Bool
◌==◌ ⦃e⦄ = e.eqb

abbrev pub nat_eqb : ℕ → ℕ → Bool
nat_eqb a b = elim (compare a b) [ Ordering.eq ↦ true | _ ↦ false ]

pub nat_eqb_iff : (a b : ℕ) → (nat_eqb a b ≡ true) ↔ (a ≡ b)
nat_eqb_iff a b = ground arith

instance abbrev pub nat_eq : HasEq ℕ
nat_eq = record { eqb = nat_eqb; eqb_iff = nat_eqb_iff }

instance abbrev pub string_eq : HasEq String
string_eq = record { eqb = text_eqb; eqb_iff = eq_iff }

-- `a == b` where either side may be None.
abbrev pub option_eqb {ℓ} : {A : Type ℓ} → (A → A → Bool) → Option A → Option A → Bool
option_eqb eqb none none = true
option_eqb eqb none (some b) = false
option_eqb eqb (some a) none = false
option_eqb eqb (some a) (some b) = eqb a b

pub option_eqb_iff {ℓ} :
    {A : Type ℓ} (e : HasEq A) (a b : Option A) → (option_eqb e.eqb a b ≡ true) ↔ (a ≡ b)
option_eqb_iff e none none = (λ _. refl, λ _. refl)
option_eqb_iff e none (some b) = (λ h. cc, λ h. cc)
option_eqb_iff e (some a) none = (λ h. cc, λ h. cc)
option_eqb_iff e (some a) (some b) =
    (λ h. cc ((e.eqb_iff a b).0 h), λ h. (e.eqb_iff a b).1 (ground arith))

instance abbrev pub option_eq {ℓ} : {A : Type ℓ} ⦃e : HasEq A⦄ → HasEq (Option A)
option_eq ⦃e⦄ = record { eqb = option_eqb e.eqb; eqb_iff = option_eqb_iff e }

abbrev pub list_eqb {ℓ} : {A : Type ℓ} → (A → A → Bool) → List A → List A → Bool
list_eqb eqb [] [] = true
list_eqb eqb [] (b ∷ bs) = false
list_eqb eqb (a ∷ as') [] = false
list_eqb eqb (a ∷ as') (b ∷ bs) = if eqb a b then list_eqb eqb as' bs else false

pub list_eqb_iff {ℓ} :
    {A : Type ℓ} (e : HasEq A) (a b : List A) → (list_eqb e.eqb a b ≡ true) ↔ (a ≡ b)
list_eqb_iff e [] [] = (λ _. refl, λ _. refl)
list_eqb_iff e [] (b ∷ bs) = (λ h. cc, λ h. cc)
list_eqb_iff e (a ∷ as') [] = (λ h. cc, λ h. cc)
list_eqb_iff e (a ∷ as') (b ∷ bs) = (
  λ h. ground (arith, e.eqb_iff a b, list_eqb_iff e as' bs),
  λ h. ground (arith, e.eqb_iff a b, list_eqb_iff e as' bs),
)

instance abbrev pub list_eq {ℓ} : {A : Type ℓ} ⦃e : HasEq A⦄ → HasEq (List A)
list_eq ⦃e⦄ = record { eqb = list_eqb e.eqb; eqb_iff = list_eqb_iff e }

module _ {ℓ} {A : Type ℓ} ⦃e : HasEq A⦄ where
  pub ==_refl : (a : A) → (a == a) ≡ true
  ==_refl a = (e.eqb_iff a a).1 refl

  pub eq_of_== : (a b : A) → (a == b) ≡ true → a ≡ b
  eq_of_== a b = (e.eqb_iff a b).0

  pub ==_sym : (a b : A) → (a == b) ≡ (b == a)
  ==_sym a b = ground (arith, e.eqb_iff a b, e.eqb_iff b a)
