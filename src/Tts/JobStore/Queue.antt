-- ===== src/Tts/JobStore/Queue.antt =====
-- The queue of app/services/job_store.py against what it promises: the highest priority first, and
-- the order of arrival within a priority.
use ai_trans_clips_tts.Prelude.{
  ℕ, suc, ◌+◌, ◌≤◌, ◌<◌, ◌≡◌, refl, ap, sym, Option, none, some, List, [], ◌∷◌, map, arith,
  if◌then◌else◌, length, Bool-cases, inl, inr, All,
}
use ai_trans_clips_tts.Prelude.Int.{ℤ, ltb_ℤ}
use ai_trans_clips_tts.Prelude.Sorting.{insert}
use ai_trans_clips_tts.Prelude.Text.{Text}
use ai_trans_clips_tts.Tts.JobStore.{
  MemoryJobStore, new_store, Entry, score, negated, score_scale, entry_leb, enqueue, dequeue,
  pop_first,
}
use ai_trans_clips_tts.Tts.JobStore.Score.{entry_leb_order}

-- What the callers of the queue do.
pub data Op : Type 0 where
  push : Text → ℤ → Op
  take_next : Op

-- The queue without scores or sequence numbers: ids with their priorities.
abbrev pub Waiting : Type 0
Waiting = List (ℤ × Text)

unfoldable pub line_up : ℤ → Text → Waiting → Waiting
line_up p i [] = (p, i) ∷ []
line_up p i ((q, j) ∷ ws) = if ltb_ℤ q p then (p, i) ∷ (q, j) ∷ ws else (q, j) ∷ line_up p i ws

unfoldable pub call_next : Waiting → Option Text × Waiting
call_next [] = (none, [])
call_next ((p, i) ∷ ws) = (some i, ws)

-- What the calls of `dequeue` in a history return, in order.
unfoldable pub answers : List Op → MemoryJobStore → List (Option Text)
answers [] s = []
answers (push i p ∷ ops) s = answers ops (enqueue i p s)
answers (take_next ∷ ops) s = (dequeue s).0 ∷ answers ops (dequeue s).1

unfoldable pub promised : List Op → Waiting → List (Option Text)
unfolding line_up call_next
promised [] ws = []
promised (push i p ∷ ops) ws = promised ops (line_up p i ws)
promised (take_next ∷ ops) ws = (call_next ws).0 ∷ promised ops (call_next ws).1

-- A waiting job with the number it got.
abbrev Ticket : Type 0
Ticket = ℕ × ℤ × Text

abbrev entry : Ticket → Entry
entry (n, p, i) = (negated (score p n), i)

abbrev forget : Ticket → ℤ × Text
forget (n, p, i) = (p, i)

abbrev IsIssued : ℕ → Ticket → Type 0
IsIssued n t = (0 < t.0) × (t.0 ≤ n)

unfoldable stand : Ticket → List Ticket → List Ticket
stand t [] = t ∷ []
stand (n, p, i) ((m, q, j) ∷ ts) =
    if ltb_ℤ q p then (n, p, i) ∷ (m, q, j) ∷ ts else (m, q, j) ∷ stand (n, p, i) ts

All-IsIssued-suc : (n : ℕ) (ts : List Ticket) → All (IsIssued n) ts → All (IsIssued (suc n)) ts
All-IsIssued-suc n [] h = tt
All-IsIssued-suc n (t ∷ ts) h = ((h.0.0, omega (arith, h.0.1)), All-IsIssued-suc n ts h.1)

stand-IsIssued :
    (n : ℕ) (t : Ticket) (ts : List Ticket)
    → IsIssued n t
    → All (IsIssued n) ts
    → All (IsIssued n) (stand t ts)
unfolding stand
stand-IsIssued n t [] h a = (h, tt)
stand-IsIssued n (k, p, i) ((m, q, j) ∷ ts) h a = elim (Bool-cases (ltb_ℤ q p)) [
  | inl before ↦ rw before (h, a)
  | inr after ↦ rw after (a.0, stand-IsIssued n (k, p, i) ts h a.1)
]

map-entry-stand :
    (n : ℕ) (p : ℤ) (i : Text) (ts : List Ticket)
    → suc n ≤ score_scale
    → All (IsIssued n) ts
    → insert entry_leb (entry (suc n, p, i)) (map entry ts) ≡ map entry (stand (suc n, p, i) ts)
unfolding insert stand
map-entry-stand n p i [] h a = refl
map-entry-stand n p i ((m, q, j) ∷ ts) h a =
    rw (entry_leb_order q p j i m (suc n) a.0.0 (omega (arith, a.0.1)) h)
      (elim (Bool-cases (ltb_ℤ q p)) [
        | inl before ↦ rw before refl
        | inr after ↦
            rw after (ap (λ (l : List Entry). entry (m, q, j) ∷ l) (map-entry-stand n p i ts h a.1))
      ])

map-forget-stand :
    (n : ℕ) (p : ℤ) (i : Text) (ts : List Ticket)
    → map forget (stand (n, p, i) ts) ≡ line_up p i (map forget ts)
unfolding stand line_up
map-forget-stand n p i [] = refl
map-forget-stand n p i ((m, q, j) ∷ ts) = elim (Bool-cases (ltb_ℤ q p)) [
  | inl before ↦ rw before refl
  | inr after ↦ rw after (ap (λ (l : Waiting). (q, j) ∷ l) (map-forget-stand n p i ts))
]

answers-promised :
    (ops : List Op) (s : MemoryJobStore) (ts : List Ticket)
    → s.queue ≡ map entry ts
    → All (IsIssued s.seq) ts
    → length ops + s.seq ≤ score_scale
    → answers ops s ≡ promised ops (map forget ts)
unfolding answers promised enqueue dequeue call_next pop_first
answers-promised [] s ts q a h = refl
answers-promised (push i p ∷ ops) s ts q a h = rw (sym (map-forget-stand (suc s.seq) p i ts)) (
    answers-promised ops (enqueue i p s) (stand (suc s.seq, p, i) ts)
      (rw q (map-entry-stand s.seq p i ts (omega (arith, h)) a))
      (stand-IsIssued (suc s.seq) (suc s.seq, p, i) ts (omega arith, omega arith)
        (All-IsIssued-suc s.seq ts a))
      (omega (arith, h)))
answers-promised (take_next ∷ ops) s [] q a h = rw q (
    ap (λ (l : List (Option Text)). none ∷ l)
      (answers-promised ops (record s { queue = [] }) [] refl tt (omega (arith, h))))
answers-promised (take_next ∷ ops) s ((n, p, i) ∷ ts) q a h = rw q (
    ap (λ (l : List (Option Text)). some i ∷ l)
      (answers-promised ops (record s { queue = map entry ts }) ts refl a.1 (omega (arith, h))))

-- For any history of calls on a new store, of at most 10^12 calls, with any priorities, the calls of
-- `dequeue` return what a plain priority queue returns: the longest waiting job among those of the
-- highest priority, and None when nothing waits.
pub queue_refines :
    (ops : List Op) → length ops ≤ score_scale → answers ops new_store ≡ promised ops []
unfolding new_store
queue_refines ops h = answers-promised ops new_store [] refl tt (omega (arith, h))
