-- ===== src/Pipeline/Jobs/Streams.antt =====
-- The event queues of pipeline-worker/jobs.py: what an update delivers, and to whom.
use mathlib.Core.Option
use ai_trans_clips_tts.Prelude.{
  ℕ, zero, suc, ◌+◌, ◌-◌, String, none, some, List, [], ◌∷◌, ◌++◌, ◌≡◌, refl, ap, inl, inr, arith,
  ◌==◌, nat_eq, string_eq, count, count-append, Option-cases,
}
use ai_trans_clips_tts.Prelude.Dict.{Dict, get, put, get-put, get-put_self}
use ai_trans_clips_tts.Pipeline.Jobs.{
  Job, Field, Store, setattrs, to_dict, update_job, update_found, add_listener, remove_listener,
  remove_first, put_nowait, notify, listeners_of,
}

-- One delivery for each time that the queue is registered.
abbrev pub deliver : ℕ → Job → List Job → List Job
deliver zero event items = items
deliver (suc n) event items = deliver n event (put_nowait event items)

deliver-none : (n : ℕ) (event : Job) → Option.map (deliver n event) none ≡ none
deliver-none n event = refl

get-notify :
    (event : Job) (qs : List ℕ) (queues : Dict ℕ (List Job)) (q : ℕ)
    → get (notify event qs queues) q
      ≡ Option.map (deliver (count (λ x. x == q) qs) event) (get queues q)
unfolding notify
get-notify event [] queues q = elim (Option-cases (get queues q)) [
  | inl absent ↦ rw absent
  | inr (items, found) ↦ rw found
]
get-notify event (x ∷ rest) queues q = elim (Option-cases (get queues x)) [
  | inl absent ↦
      rw (absent, notify)
        (ground (
          arith,
          absent,
          get-notify event rest queues q,
          nat_eq.eqb_iff x q,
          λ (e : x ≡ q). ap (λ (j : ℕ). get queues j) e,
        ))
  | inr (items, found) ↦
      rw (found, notify)
        (ground (
          arith,
          found,
          get-notify event rest (put queues x (put_nowait event items)) q,
          get-put queues x q (put_nowait event items),
          nat_eq.eqb_iff x q,
          λ (e : x ≡ q). ap (λ (j : ℕ). get queues j) e,
        ))
]

pub update_job_delivers :
    (now : ℕ) (i : String) (fields : List Field) (s : Store) (job : Job) (q : ℕ)
    → get s.jobs i ≡ some job
    → get (update_job now i fields s).1.queues q
      ≡ Option.map
          (deliver
            (count (λ x. x == q) (listeners_of s i))
            (to_dict (record (setattrs fields job) { updated_at = now })))
          (get s.queues q)
unfolding update_job update_found
update_job_delivers now i fields s job q found =
    rw (found, update_found)
      (get-notify (to_dict (record (setattrs fields job) { updated_at = now })) (listeners_of s i)
        s.queues q)

count-remove_first :
    (q : ℕ) (qs : List ℕ) → count (λ x. x == q) (remove_first q qs) ≡ count (λ x. x == q) qs - 1
unfolding remove_first
count-remove_first q [] = omega arith
count-remove_first q (x ∷ xs) = ground (arith, count-remove_first q xs)

count-snoc : (q : ℕ) (qs : List ℕ) → count (λ x. x == q) (qs ++ q ∷ []) ≡ count (λ x. x == q) qs + 1
count-snoc q qs = ground (arith, count-append (λ (x : ℕ). x == q) qs (q ∷ []), nat_eq.eqb_iff q q)

listeners_of-listen :
    (i : String) (s : Store)
    → listeners_of (add_listener i s).1 i ≡ listeners_of s i ++ s.next_queue ∷ []
unfolding add_listener
listeners_of-listen i s =
    ground (arith, get-put_self s.listeners i (listeners_of s i ++ s.next_queue ∷ []))

listeners_of-unlisten :
    (i : String) (q : ℕ) (s : Store)
    → listeners_of (remove_listener i q s) i ≡ remove_first q (listeners_of s i)
unfolding remove_listener remove_first
listeners_of-unlisten i q s = elim (Option-cases (get s.listeners i)) [
  | inl absent ↦ rw (absent, remove_listener) (ground (arith, absent))
  | inr (qs, found) ↦
      rw (found, remove_listener) (ground (arith, get-put_self s.listeners i (remove_first q qs)))
]

queues-unlisten : (i : String) (q : ℕ) (s : Store) → (remove_listener i q s).queues ≡ s.queues
unfolding remove_listener
queues-unlisten i q s = ground arith

jobs-unlisten : (i : String) (q : ℕ) (s : Store) → (remove_listener i q s).jobs ≡ s.jobs
unfolding remove_listener
jobs-unlisten i q s = ground arith

-- A stream that registers a new queue and removes it again hears of no later update of the job.
pub update_after_remove_listener :
    (now : ℕ) (i : String) (fields : List Field) (s : Store) (job : Job)
    → get s.jobs i ≡ some job
    → count (λ x. x == s.next_queue) (listeners_of s i) ≡ 0
    → get
        (update_job now i fields (remove_listener i s.next_queue (add_listener i s).1)).1.queues
        s.next_queue
      ≡ some []
update_after_remove_listener now i fields s job found unused =
    let s1 = (add_listener i s).1 in
    let s2 = remove_listener i s.next_queue s1 in
    let still : get s2.jobs i ≡ some job =
      rw (jobs-unlisten i s.next_queue s1) (unfold add_listener in found) in
    let quiet : count (λ x. x == s.next_queue) (listeners_of s2 i) ≡ 0 =
      rw
        (
          listeners_of-unlisten i s.next_queue s1,
          listeners_of-listen i s,
          count-remove_first s.next_queue (listeners_of s i ++ s.next_queue ∷ []),
          count-snoc s.next_queue (listeners_of s i),
        )
        (omega arith) in
    let fresh : get s2.queues s.next_queue ≡ some [] =
      rw (queues-unlisten i s.next_queue s1)
        (unfold add_listener in get-put_self s.queues s.next_queue []) in
    rw (update_job_delivers now i fields s2 job s.next_queue still, quiet, fresh) refl
