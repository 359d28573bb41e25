-- ===== src/Prelude/Dict.antt =====
-- Python's `dict`, with its insertion order: a write to a key that is there keeps its place, and a
-- new key goes to the end.
use ai_trans_clips_tts.Prelude.Tests.{if◌then◌else◌, Bool-cases}
use ai_trans_clips_tts.Prelude.Keys.{HasEq, ◌==◌, ==_refl, eq_of_==}
use mathlib.Core.Path.{◌≡◌, refl, ap, subst, ◌∙◌}
use ai_trans_clips_tts.Prelude.Sorting.{insert, sort}
use mathlib.Core.Bool.{Bool, true, false}
use mathlib.Core.Option.{Option, none, some}
use mathlib.Core.List.{List, [], ◌∷◌, Mem, mem-cons_self, mem-cons_of_mem}
use mathlib.Core.Logic.{inl, inr}
use ai_trans_clips_tts.Prelude.Lists.{All, length, count}
use native.Mathlib.Omega.{arith}
use Prim.Native.Nat.{suc, ◌+◌, ◌≤◌}

abbrev pub Dict {ℓ κ} : Type ℓ → Type κ → Type (ℓ ⊔ κ)
Dict K V = List (K × V)

module _ {ℓ κ} {K : Type ℓ} {V : Type κ} ⦃e : HasEq K⦄ where
  -- `d.get(k)`
  unfoldable pub get : Dict K V → K → Option V
  get [] k = none
  get ((j, v) ∷ d) k = if j == k then some v else get d k

  -- `d[k] = v`
  unfoldable pub put : Dict K V → K → V → Dict K V
  put [] k v = (k, v) ∷ []
  put ((j, w) ∷ d) k v = if j == k then (j, v) ∷ d else (j, w) ∷ put d k v

  -- `d.pop(k, None)`
  unfoldable pub pop : Dict K V → K → Dict K V
  pop [] k = []
  pop ((j, w) ∷ d) k = if j == k then pop d k else (j, w) ∷ pop d k

  abbrev pub has : Dict K V → K → Bool
  has d k = elim (get d k) [ none ↦ false | some v ↦ true ]

  -- `d.values()`
  unfoldable pub values : Dict K V → List V
  values [] = []
  values ((j, w) ∷ d) = w ∷ values d

module _ {ℓ κ} {K : Type ℓ} {V : Type κ} ⦃e : HasEq K⦄ where
  pub get-put :
      (d : Dict K V) (k j : K) (v : V) → get (put d k v) j ≡ (if k == j then some v else get d j)
  unfolding get put
  get-put [] k j v = refl
  get-put ((i, w) ∷ d) k j v =
      ground (arith, e.eqb_iff i k, e.eqb_iff i j, e.eqb_iff k j, get-put d k j v)

  pub get-pop : (d : Dict K V) (k j : K) → get (pop d k) j ≡ (if k == j then none else get d j)
  unfolding get pop
  get-pop [] k j = ground arith
  get-pop ((i, w) ∷ d) k j =
      ground (arith, e.eqb_iff i k, e.eqb_iff i j, e.eqb_iff k j, get-pop d k j)

  pub get-put_self : (d : Dict K V) (k : K) (v : V) → get (put d k v) k ≡ some v
  get-put_self d k v = rw (get-put, ==_refl)

  pub get-pop_self : (d : Dict K V) (k : K) → get (pop d k) k ≡ none
  get-pop_self d k = rw (get-pop, ==_refl)

pub ruleset dict_laws = (get-put, get-pop)

pub some_injective {ℓ} : {A : Type ℓ} {a b : A} → some a ≡ some b → a ≡ b
some_injective h = cc

-- Every key stands once: what makes an association list a dictionary.
abbrev pub IsDict {ℓ κ} : {K : Type ℓ} {V : Type κ} ⦃e : HasEq K⦄ → Dict K V → Type κ
IsDict [] = Unit
IsDict ((k, v) ∷ d) = (get d k ≡ none) × IsDict d

module _ {ℓ κ} {K : Type ℓ} {V : Type κ} ⦃e : HasEq K⦄ where
  pub put-IsDict : (d : Dict K V) (k : K) (v : V) → IsDict d → IsDict (put d k v)
  unfolding put get
  put-IsDict [] k v h = (refl, tt)
  put-IsDict ((j, w) ∷ d) k v h = elim (Bool-cases (j == k)) [
    | inl same ↦ rw same h
    | inr other ↦
        rw other
          (ground (arith, get-put d k j v, e.eqb_iff j k, e.eqb_iff k j, h.0), put-IsDict d k v h.1)
  ]

  pub pop-IsDict : (d : Dict K V) (k : K) → IsDict d → IsDict (pop d k)
  unfolding pop get
  pop-IsDict [] k h = tt
  pop-IsDict ((j, w) ∷ d) k h = elim (Bool-cases (j == k)) [
    | inl same ↦ rw same (pop-IsDict d k h.1)
    | inr other ↦ rw other (ground (arith, get-pop d k j, h.0), pop-IsDict d k h.1)
  ]

  -- What holds of every entry that can be looked up holds of every value.
  pub All-values {μ} :
      (P : V → Type μ) (d : Dict K V)
      → IsDict d
      → ((k : K) (v : V) → get d k ≡ some v → P v)
      → All P (values d)
  unfolding values get
  All-values P [] h f = tt
  All-values P ((j, w) ∷ d) h f = (
    f j w (rw ==_refl refl),
    All-values P d h.1 λ k v found.
        f k v (ground (arith, e.eqb_iff j k, ap (λ (i : K). get d i) {x = j} {y = k}, h.0, found)),
  )

  pub mem-values : (d : Dict K V) (k : K) (v : V) → get d k ≡ some v → Mem v (values d)
  unfolding values get
  mem-values [] k v h = cc
  mem-values ((j, w) ∷ d) k v h = elim (Bool-cases (j == k)) [
    | inl same ↦ subst (λ x. Mem x (w ∷ values d)) (some_injective (rw same at h)) mem-cons_self
    | inr other ↦ mem-cons_of_mem w (mem-values d k v (rw other at h))
  ]

-- What a write of a new key and the removal of a key do to the counts.
module _ {ℓ κ} {K : Type ℓ} {V : Type κ} ⦃e : HasEq K⦄ where
  pub length-put_new :
      (d : Dict K V) (k : K) (v : V) → get d k ≡ none → length (put d k v) ≡ suc (length d)
  unfolding get put
  length-put_new [] k v h = refl
  length-put_new ((j, w) ∷ d) k v h = ground (arith, length-put_new d k v)

  pub count-put_new :
      (p : V → Bool) (d : Dict K V) (k : K) (v : V)
      → get d k ≡ none
      → count p (values (put d k v)) ≡ count p (values d) + (if p v then 1 else 0)
  unfolding get put values
  count-put_new p [] k v h = ground arith
  count-put_new p ((j, w) ∷ d) k v h = ground (arith, count-put_new p d k v)

  pub pop_absent : (d : Dict K V) (k : K) → get d k ≡ none → pop d k ≡ d
  unfolding get pop
  pop_absent [] k h = refl
  pop_absent ((j, w) ∷ d) k h = ground (arith, pop_absent d k)

  get_tail : (d : Dict K V) (j k : K) → (j == k) ≡ true → get d j ≡ none → get d k ≡ none
  get_tail d j k same h = subst (λ (i : K). get d i ≡ none) (eq_of_== j k same) h

  pub length-pop :
      (d : Dict K V) (k : K) (v : V)
      → IsDict d
      → get d k ≡ some v
      → suc (length (pop d k)) ≡ length d
  unfolding get pop
  length-pop [] k v h found = absurd (ground arith)
  length-pop ((j, w) ∷ d) k v h found =
      ground (arith, length-pop d k v h.1, pop_absent d k, get_tail d j k, h.0)

  pub count-pop :
      (p : V → Bool) (d : Dict K V) (k : K) (v : V)
      → IsDict d
      → get d k ≡ some v
      → count p (values (pop d k)) + (if p v then 1 else 0) ≡ count p (values d)
  unfolding get pop values
  count-pop p [] k v h found = absurd (ground arith)
  count-pop p ((j, w) ∷ d) k v h found =
      ground (arith, count-pop p d k v h.1, pop_absent d k, get_tail d j k, h.0)

  pub count-pop-le :
      (p : V → Bool) (d : Dict K V) (k : K) → count p (values (pop d k)) ≤ count p (values d)
  unfolding pop values
  count-pop-le p [] k = omega arith
  count-pop-le p ((j, w) ∷ d) k = ground (arith, count-pop-le p d k)

-- Sorting the entries of a dictionary leaves it the same dictionary.
module _ {ℓ κ} {K : Type ℓ} {V : Type κ} ⦃e : HasEq K⦄ (le : K × V → K × V → Bool) where
  get-insert :
      (d : Dict K V) (k j : K) (v : V)
      → get d k ≡ none
      → get (insert le (k, v) d) j ≡ (if k == j then some v else get d j)
  unfolding get insert
  get-insert [] k j v new = refl
  get-insert ((i, w) ∷ d) k j v new =
      ground (arith, e.eqb_iff i k, e.eqb_iff i j, e.eqb_iff k j, get-insert d k j v)

  insert-IsDict :
      (d : Dict K V) (k : K) (v : V) → get d k ≡ none → IsDict d → IsDict (insert le (k, v) d)
  unfolding get insert
  insert-IsDict [] k v new h = (refl, tt)
  insert-IsDict ((i, w) ∷ d) k v new h = elim (Bool-cases (le (k, v) (i, w))) [
    | inl first ↦ rw first (new, h)
    | inr later ↦ rw later (
      ground (arith, e.eqb_iff i k, e.eqb_iff k i, get-insert d k i v, h.0),
      insert-IsDict d k v (ground arith) h.1,
    )
  ]

  pub get-sort : (d : Dict K V) (j : K) → IsDict d → get (sort le d) j ≡ get d j
  unfolding get sort
  get-sort [] j h = refl
  get-sort ((k, v) ∷ d) j h =
      ground (arith, get-insert (sort le d) k j v, get-sort d k h.1, get-sort d j h.1, h.0)

  pub sort-IsDict : (d : Dict K V) → IsDict d → IsDict (sort le d)
  unfolding sort
  sort-IsDict [] h = tt
  sort-IsDict ((k, v) ∷ d) h =
      insert-IsDict (sort le d) k v (get-sort d k h.1 ∙ h.0) (sort-IsDict d h.1)

-- The entries after the first, when its key is taken out everywhere.
module _ {ℓ κ} {K : Type ℓ} {V : Type κ} ⦃e : HasEq K⦄ where
  pub get_head : (d : Dict K V) (k : K) (v : V) → get ((k, v) ∷ d) k ≡ some v
  unfolding get
  get_head d k v = rw ==_refl refl

  pub get_tail_pop :
      (d d' : Dict K V) (k j : K) (v : V)
      → get d k ≡ none
      → get ((k, v) ∷ d) j ≡ get d' j
      → get d j ≡ get (pop d' k) j
  unfolding get
  get_tail_pop d d' k j v new same =
      ground (arith, get-pop d' k j, e.eqb_iff k j, ap (λ (i : K). get d i) {x = k} {y = j})

  pub get_other : (d : Dict K V) (k j : K) (v : V) → (k == j) ≡ false → get ((k, v) ∷ d) j ≡ get d j
  unfolding get
  get_other d k j v other = rw other refl

  pub get-pop_other : (d : Dict K V) (k j : K) → (k == j) ≡ false → get (pop d k) j ≡ get d j
  get-pop_other d k j other = get-pop d k j ∙ rw other refl

  -- What is found behind an entry of another name is found with it.
  pub get_behind :
      (d : Dict K V) (k j : K) (v w : V)
      → get d k ≡ none
      → get d j ≡ some w
      → get ((k, v) ∷ d) j ≡ some w
  unfolding get
  get_behind d k j v w new found =
      ground (arith, found, e.eqb_iff k j, ap (λ (i : K). get d i) {x = k} {y = j})
