-- ===== src/Prelude/Sorting.antt =====
-- Python's `sorted` and `list.sort`: a stable sort by a Boolean order on the keys. `le x y` says
-- that `x` may stand before `y`; for `reverse=True` the caller turns it round, and elements with
-- equal keys keep their order either way.
use mathlib.Core.List.Perm
use mathlib.Core.List.{Perm}
use ai_trans_clips_tts.Prelude.Tests.{if◌then◌else◌, Bool-cases}
use ai_trans_clips_tts.Prelude.Lists.{length, take, All-take, All, All-weaken, any, count}
use mathlib.Core.Path.{◌≡◌, refl, ap}
use mathlib.Core.Logic.{inl, inr}
use Prim.Native.Nat.{ℕ, zero, suc}
use native.Mathlib.Omega.{arith}
use mathlib.Core.Bool.{Bool, true, false}
use mathlib.Core.List.{List, [], ◌∷◌}

module _ {ℓ} {A : Type ℓ} (le : A → A → Bool) where
  -- The element stood before those of the list, so it goes before its equals.
  unfoldable pub insert : A → List A → List A
  insert x [] = x ∷ []
  insert x (y ∷ ys) = if le x y then x ∷ y ∷ ys else y ∷ insert x ys

  unfoldable pub sort : List A → List A
  unfolding insert
  sort [] = []
  sort (x ∷ xs) = insert x (sort xs)

  abbrev pub IsSorted : List A → Type ℓ
  IsSorted [] = Unit
  IsSorted (x ∷ xs) = All (λ y. le x y ≡ true) xs × IsSorted xs

module _ {ℓ} {A : Type ℓ} (le : A → A → Bool) where
  insert-perm : (x : A) (xs : List A) → Perm (insert le x xs) (x ∷ xs)
  unfolding insert
  insert-perm x [] = Perm.refl (x ∷ [])
  insert-perm x (y ∷ ys) = elim (Bool-cases (le x y)) [
    | inl e ↦ rw e (Perm.refl (x ∷ y ∷ ys))
    | inr e ↦ rw e (Perm.trans (Perm.cons y (insert-perm x ys)) (Perm.swap x y ys))
  ]

  pub sort-perm : (xs : List A) → Perm (sort le xs) xs
  unfolding sort
  sort-perm [] = Perm.refl []
  sort-perm (x ∷ xs) = Perm.trans (insert-perm x (sort le xs)) (Perm.cons x (sort-perm xs))

  insert-All {κ} : (P : A → Type κ) (x : A) (xs : List A) → P x → All P xs → All P (insert le x xs)
  unfolding insert
  insert-All P x [] p h = (p, tt)
  insert-All P x (y ∷ ys) p h = elim (Bool-cases (le x y)) [
    | inl e ↦ rw e (p, h)
    | inr e ↦ rw e (h.0, insert-All P x ys p h.1)
  ]

  -- Sorting moves elements about and changes none.
  pub sort-All {κ} : (P : A → Type κ) (xs : List A) → All P xs → All P (sort le xs)
  unfolding sort
  sort-All P [] h = tt
  sort-All P (x ∷ xs) h = insert-All P x (sort le xs) h.0 (sort-All P xs h.1)

  module _ (total : (x y : A) → le x y ≡ false → le y x ≡ true)
      (trans : (x y z : A) → le x y ≡ true → le y z ≡ true → le x z ≡ true) where
    insert-IsSorted : (x : A) (xs : List A) → IsSorted le xs → IsSorted le (insert le x xs)
    unfolding insert
    insert-IsSorted x [] h = (tt, tt)
    insert-IsSorted x (y ∷ ys) h = elim (Bool-cases (le x y)) [
      | inl e ↦
          rw e (
            (e, All-weaken (λ z. le y z ≡ true) (λ z. le x z ≡ true) ys (λ z. trans x y z e) h.0),
            h,
          )
      | inr e ↦
          rw e (insert-All (λ z. le y z ≡ true) x ys (total x y e) h.0, insert-IsSorted x ys h.1)
    ]

    pub sort-IsSorted : (xs : List A) → IsSorted le (sort le xs)
    unfolding sort
    sort-IsSorted [] = tt
    sort-IsSorted (x ∷ xs) = insert-IsSorted x (sort le xs) (sort-IsSorted xs)

module _ {ℓ} {A : Type ℓ} (le : A → A → Bool) where
  length-insert : (x : A) (xs : List A) → length (insert le x xs) ≡ suc (length xs)
  unfolding insert
  length-insert x [] = refl
  length-insert x (y ∷ ys) = ground (arith, length-insert x ys)

  pub length-sort : (xs : List A) → length (sort le xs) ≡ length xs
  unfolding sort
  length-sort [] = refl
  length-sort (x ∷ xs) = rw (length-insert x (sort le xs)) (ap suc (length-sort xs))

  pub IsSorted-take : (n : ℕ) (xs : List A) → IsSorted le xs → IsSorted le (take n xs)
  IsSorted-take zero xs h = tt
  IsSorted-take (suc n) [] h = tt
  IsSorted-take (suc n) (x ∷ xs) h =
      (All-take (λ y. le x y ≡ true) n xs h.0, IsSorted-take n xs h.1)

module _ {ℓ} {A : Type ℓ} (le : A → A → Bool) (p : A → Bool) where
  any-insert : (x : A) (ys : List A) → any p (insert le x ys) ≡ any p (x ∷ ys)
  unfolding insert
  any-insert x [] = refl
  any-insert x (y ∷ ys) = ground (arith, any-insert x ys)

  pub any-sort : (xs : List A) → any p (sort le xs) ≡ any p xs
  unfolding sort
  any-sort [] = refl
  any-sort (x ∷ xs) = ground (arith, any-insert x (sort le xs), any-sort xs)

  count-insert : (x : A) (ys : List A) → count p (insert le x ys) ≡ count p (x ∷ ys)
  unfolding insert
  count-insert x [] = refl
  count-insert x (y ∷ ys) = ground (arith, count-insert x ys)

  pub count-sort : (xs : List A) → count p (sort le xs) ≡ count p xs
  unfolding sort
  count-sort [] = refl
  count-sort (x ∷ xs) = ground (arith, count-insert x (sort le xs), count-sort xs)

module _ {ℓ} {A : Type ℓ} (le : A → A → Bool) where
  pub sort_of_IsSorted : (xs : List A) → IsSorted le xs → sort le xs ≡ xs
  unfolding sort insert
  sort_of_IsSorted [] h = refl
  sort_of_IsSorted (x ∷ []) h = refl
  sort_of_IsSorted (x ∷ y ∷ ys) h = rw (sort_of_IsSorted (y ∷ ys) h.1, h.0.0) refl
