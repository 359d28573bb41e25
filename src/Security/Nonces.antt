-- ===== src/Security/Nonces.antt =====
-- NonceStore of the three workers' security modules.
use ai_trans_clips_tts.Prelude.{
  ℕ, ◌+◌, ◌*◌, ◌≤◌, true, false, Option, none, some, [], ◌∷◌, ◌≡◌, refl, sym, subst, inl, inr,
  arith, nat_eq, list_eq, if◌then◌else◌, ltb, Bool-cases,
}
use ai_trans_clips_tts.Prelude.Dict.{Dict, get, get-put, get-put_self, IsDict, put-IsDict}
use ai_trans_clips_tts.Prelude.Text.{Text}
use ai_trans_clips_tts.Security.{evict, check_and_record}

module _ (ttl now : ℕ) where
  -- What is left of an entry: nothing, once it is older than the time to live.
  abbrev pub still : Option ℕ → Option ℕ
  still none = none
  still (some t) = if ltb (t + ttl * 1000) now then none else some t

  get-evict_kept :
      (seen : Dict Text ℕ) (n : Text) (t : ℕ)
      → get seen n ≡ some t
      → now ≤ t + ttl * 1000
      → get (evict ttl now seen) n ≡ some t
  unfolding evict get
  get-evict_kept [] n t h live = cc
  get-evict_kept ((m, u) ∷ seen) n t h live = ground (arith, get-evict_kept seen n t)

  get-evict_absent :
      (seen : Dict Text ℕ) (n : Text) → get seen n ≡ none → get (evict ttl now seen) n ≡ none
  unfolding evict get
  get-evict_absent [] n h = refl
  get-evict_absent ((m, u) ∷ seen) n h = ground (arith, get-evict_absent seen n)

  get-evict :
      (seen : Dict Text ℕ) (n : Text)
      → IsDict seen
      → get (evict ttl now seen) n ≡ still (get seen n)
  unfolding evict get
  get-evict [] n h = refl
  get-evict ((m, u) ∷ seen) n h =
      let same = λ (e : m ≡ n).
        subst (λ (k : Text). get (evict ttl now seen) k ≡ none) e (get-evict_absent seen m h.0) in
      ground (arith, get-evict seen n h.1, (list_eq {A = ℕ}).eqb_iff m n, same)

  pub evict-IsDict : (seen : Dict Text ℕ) → IsDict seen → IsDict (evict ttl now seen)
  unfolding evict
  evict-IsDict [] h = tt
  evict-IsDict ((m, u) ∷ seen) h = elim (Bool-cases (ltb (u + ttl * 1000) now)) [
    | inl old ↦ rw old (evict-IsDict seen h.1)
    | inr live ↦ rw live (get-evict_absent seen m h.0, evict-IsDict seen h.1)
  ]

  -- A nonce is accepted exactly when it is not remembered, or when the memory of it is older than
  -- the time to live; whatever is asked, the nonces stay a dictionary.
  pub check_and_record_exact :
      (seen : Dict Text ℕ) (n : Text)
      → IsDict seen
      → ((check_and_record ttl n now seen).0
          ≡ elim (still (get seen n)) [ none ↦ true | some t ↦ false ])
        × IsDict (check_and_record ttl n now seen).1
  unfolding check_and_record
  check_and_record_exact seen n h = (
    ground (arith, get-evict seen n h),
    ground
        (arith, evict-IsDict seen h, put-IsDict (evict ttl now seen) n now (evict-IsDict seen h)),
  )

  pub check_and_record_stored :
      (seen : Dict Text ℕ) (n : Text)
      → (check_and_record ttl n now seen).0 ≡ true
      → get (check_and_record ttl n now seen).1 n ≡ some now
  unfolding check_and_record
  check_and_record_stored seen n h = ground (arith, get-put_self (evict ttl now seen) n now)

  pub check_and_record_keeps :
      (seen : Dict Text ℕ) (m n : Text) (t : ℕ)
      → get seen n ≡ some t
      → now ≤ t + ttl * 1000
      → get (check_and_record ttl m now seen).1 n ≡ some t
  unfolding check_and_record
  check_and_record_keeps seen m n t h live =
      let kept = get-evict_kept seen n t h live in
      let same =
        λ (e : m ≡ n). subst (λ (k : Text). get (evict ttl now seen) k ≡ some t) (sym e) kept in
      ground
        (arith, kept, get-put (evict ttl now seen) m n now, (list_eq {A = ℕ}).eqb_iff m n, same)

  pub check_and_record_refuses :
      (seen : Dict Text ℕ) (n : Text) (t : ℕ)
      → get seen n ≡ some t
      → now ≤ t + ttl * 1000
      → (check_and_record ttl n now seen).0 ≡ false
  unfolding check_and_record
  check_and_record_refuses seen n t h live = ground (arith, get-evict_kept seen n t h live)
