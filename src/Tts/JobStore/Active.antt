-- ===== src/Tts/JobStore/Active.antt =====
-- The sets of active jobs per tier in app/services/job_store.py.
use ai_trans_clips_tts.Prelude.{
  ◌+◌, ◌≡◌, refl, Bool, true, false, none, some, List, [], ◌∷◌, ◌==◌, ==_refl, nat_eq, list_eq,
  list_eqb_iff, eq_of_==, ◌↔◌, subst, sym, arith, if◌then◌else◌, length, any, Bool-cases,
  Option-cases, inl, inr,
}
use ai_trans_clips_tts.Prelude.Dict.{get, put, get-put}
use ai_trans_clips_tts.Prelude.Text.{Text}
use ai_trans_clips_tts.Tts.JobStore.{
  MemoryJobStore, set_add, set_discard, active_of, add_active, remove_active, count_active,
}

abbrev pub is_active : Text → Text → MemoryJobStore → Bool
is_active tier i s = any (λ j. j == i) (active_of s tier)

-- No id stands twice.
abbrev pub IsSetOf : List Text → Type 0
IsSetOf [] = Unit
IsSetOf (i ∷ ids) = (any (λ j. j == i) ids ≡ false) × IsSetOf ids

text_eqb_iff : (i j : Text) → ((i == j) ≡ true) ↔ (i ≡ j)
text_eqb_iff i j = list_eqb_iff nat_eq i j

any-set_add :
    (i j : Text) (ids : List Text)
    → any (λ k. k == j) (set_add i ids) ≡ (if i == j then true else any (λ k. k == j) ids)
unfolding set_add
any-set_add i j ids = elim (Bool-cases (any (λ k. k == i) ids)) [
  | inl there ↦ rw there (elim (Bool-cases (i == j)) [
    | inl same ↦ rw same (subst (λ k. any (λ k'. k' == k) ids ≡ true) (eq_of_== i j same) there)
    | inr other ↦ rw other refl
  ])
  | inr new ↦ rw new refl
]

any-set_discard :
    (i j : Text) (ids : List Text)
    → any (λ k. k == j) (set_discard i ids) ≡ (if i == j then false else any (λ k. k == j) ids)
unfolding set_discard
any-set_discard i j [] = ground arith
any-set_discard i j (k ∷ ids) =
    ground (arith, any-set_discard i j ids, text_eqb_iff k i, text_eqb_iff k j, text_eqb_iff i j)

set_add-IsSet : (i : Text) (ids : List Text) → IsSetOf ids → IsSetOf (set_add i ids)
unfolding set_add
set_add-IsSet i ids h = elim (Bool-cases (any (λ k. k == i) ids)) [
  | inl there ↦ rw there h
  | inr new ↦ rw new (new, h)
]

set_discard-IsSet : (i : Text) (ids : List Text) → IsSetOf ids → IsSetOf (set_discard i ids)
unfolding set_discard
set_discard-IsSet i [] h = tt
set_discard-IsSet i (k ∷ ids) h = elim (Bool-cases (k == i)) [
  | inl same ↦ rw same (set_discard-IsSet i ids h.1)
  | inr other ↦ rw other (ground (arith, any-set_discard i k ids, h.0), set_discard-IsSet i ids h.1)
]

length-set_add :
    (i : Text) (ids : List Text)
    → length (set_add i ids) ≡ length ids + (if any (λ k. k == i) ids then 0 else 1)
unfolding set_add
length-set_add i ids = ground arith

set_discard_absent :
    (i : Text) (ids : List Text) → any (λ k. k == i) ids ≡ false → set_discard i ids ≡ ids
unfolding set_discard
set_discard_absent i [] h = refl
set_discard_absent i (k ∷ ids) h = ground (arith, set_discard_absent i ids)

absent_tail :
    (i k : Text) (ids : List Text)
    → (k == i) ≡ true
    → any (λ k'. k' == k) ids ≡ false
    → any (λ k'. k' == i) ids ≡ false
absent_tail i k ids same h = subst (λ x. any (λ k'. k' == x) ids ≡ false) (eq_of_== k i same) h

length-set_discard :
    (i : Text) (ids : List Text)
    → IsSetOf ids
    → length (set_discard i ids) + (if any (λ k. k == i) ids then 1 else 0) ≡ length ids
unfolding set_discard
length-set_discard i [] h = ground arith
length-set_discard i (k ∷ ids) h =
    ground (arith, length-set_discard i ids h.1, set_discard_absent i ids, absent_tail i k ids, h.0)

active_of-put :
    (t t' : Text) (ids : List Text) (s : MemoryJobStore)
    → active_of (record s { active = put s.active t ids }) t'
      ≡ (if t == t' then ids else active_of s t')
active_of-put t t' ids s = ground (arith, get-put s.active t t' ids)

pub active_of-add_active :
    (t t' i : Text) (s : MemoryJobStore)
    → active_of (add_active t i s) t'
      ≡ (if t == t' then set_add i (active_of s t) else active_of s t')
unfolding add_active
active_of-add_active t t' i s = active_of-put t t' (set_add i (active_of s t)) s

discard_of_absent :
    (t t' i : Text) (s : MemoryJobStore)
    → (t == t') ≡ true
    → get s.active t ≡ none
    → active_of s t' ≡ set_discard i (active_of s t)
unfolding set_discard
discard_of_absent t t' i s same absent =
    rw (active_of, subst (λ x. get s.active x ≡ none) (eq_of_== t t' same) absent, absent) refl

remove_found :
    (t t' i : Text) (ids : List Text) (s : MemoryJobStore)
    → get s.active t ≡ some ids
    → active_of (record s { active = put s.active t (set_discard i ids) }) t'
      ≡ (if t == t' then set_discard i (active_of s t) else active_of s t')
remove_found t t' i ids s found =
    rw (active_of-put t t' (set_discard i ids) s, active_of, found) refl

pub active_of-remove_active :
    (t t' i : Text) (s : MemoryJobStore)
    → active_of (remove_active t i s) t'
      ≡ (if t == t' then set_discard i (active_of s t) else active_of s t')
unfolding remove_active
active_of-remove_active t t' i s = elim (Option-cases (get s.active t)) [
  | inl absent ↦ elim (Bool-cases (t == t')) [
    | inl same ↦ rw (absent, remove_active, same) (discard_of_absent t t' i s same absent)
    | inr other ↦ rw (absent, remove_active, other) refl
  ]
  | inr (ids, found) ↦ rw (found, remove_active) (remove_found t t' i ids s found)
]

-- The sets of all tiers, as sets.
abbrev pub IsActiveSets : MemoryJobStore → Type 0
IsActiveSets s = (tier : Text) → IsSetOf (active_of s tier)

-- Starting a job takes a slot of its tier when the job does not hold one, and of no other tier; the
-- sets stay sets.
pub count_active-add_active :
    (t t' i : Text) (s : MemoryJobStore)
    → IsActiveSets s
    → (count_active t' (add_active t i s)
        ≡ count_active t' s + (if t == t' then if is_active t i s then 0 else 1 else 0))
      × IsActiveSets (add_active t i s)
unfolding count_active
count_active-add_active t t' i s h = (
  elim (Bool-cases (t == t')) [
    | inl same ↦
        rw (active_of-add_active, same)
          (subst
            (λ x.
              length (set_add i (active_of s t))
              ≡ length (active_of s x) + (if is_active t i s then 0 else 1))
            (eq_of_== t t' same) (length-set_add i (active_of s t)))
    | inr other ↦ rw (active_of-add_active, other) (omega arith)
  ],
  λ tier. subst IsSetOf (sym (active_of-add_active t tier i s)) (elim (Bool-cases (t == tier)) [
    | inl same ↦ rw same (set_add-IsSet i (active_of s t) (h t))
    | inr other ↦ rw other (h tier)
  ]),
)

pub remove_active-inactive :
    (t i : Text) (s : MemoryJobStore) → is_active t i (remove_active t i s) ≡ false
remove_active-inactive t i s =
    rw (active_of-remove_active, ==_refl t, any-set_discard i i (active_of s t), ==_refl i) refl

-- Ending a job gives back the slot that it holds, one of its tier and of no other, and after it the
-- job holds none; the sets stay sets.
pub count_active-remove_active :
    (t t' i : Text) (s : MemoryJobStore)
    → IsActiveSets s
    → (count_active t' (remove_active t i s)
          + (if t == t' then if is_active t i s then 1 else 0 else 0)
        ≡ count_active t' s)
      × (is_active t i (remove_active t i s) ≡ false)
      × IsActiveSets (remove_active t i s)
unfolding count_active
count_active-remove_active t t' i s h = (
  elim (Bool-cases (t == t')) [
    | inl same ↦
        rw (active_of-remove_active, same)
          (subst
            (λ x.
              length (set_discard i (active_of s t)) + (if is_active t i s then 1 else 0)
              ≡ length (active_of s x))
            (eq_of_== t t' same) (length-set_discard i (active_of s t) (h t)))
    | inr other ↦ rw (active_of-remove_active, other) (omega arith)
  ],
  remove_active-inactive t i s,
  λ tier. subst IsSetOf (sym (active_of-remove_active t tier i s)) (elim (Bool-cases (t == tier)) [
    | inl same ↦ rw same (set_discard-IsSet i (active_of s t) (h t))
    | inr other ↦ rw other (h tier)
  ]),
)

pub is_active_of_active :
    (t i : Text) (a b : MemoryJobStore) → a.active ≡ b.active → is_active t i a ≡ is_active t i b
is_active_of_active t i a b h = rw h refl
