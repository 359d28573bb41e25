-- ===== src/Pipeline/Jobs/Updates.antt =====
-- The well-formedness of the job store of pipeline-worker/jobs.py, kept by every operation.
use ai_trans_clips_tts.Prelude.{
  ℕ, ◌≤◌, ◌<◌, String, some, List, [], ◌∷◌, ◌++◌, ◌≡◌, refl, inl, inr, arith, string_eq, nat_eq,
  length, length-append, Option-cases,
}
use ai_trans_clips_tts.Prelude.Dict.{
  Dict, get, put, get-put, get-pop, IsDict, put-IsDict, pop-IsDict,
}
use ai_trans_clips_tts.Pipeline.Jobs.{
  Job, JobInput, Field, Store, empty, queue_maxsize, new_job, setattr, setattrs, choose_id,
  create_job, get_job, expire, list_jobs, remove_job, remove_all, stale_ids, update_job,
  update_found, add_listener, remove_listener, put_nowait, notify, to_dict, listeners_of,
  remove_first,
}

-- Every key stands once, a job stands under its own id, and no queue holds more than its bound, is
-- allocated beyond the counter, or holds an event with a local path.
pub record IsValid (s : Store) : Type 0 where
  pub unique : IsDict s.jobs
  pub unique_listeners : IsDict s.listeners
  pub unique_queues : IsDict s.queues
  pub named : (i : String) (job : Job) → get s.jobs i ≡ some job → job.job_id ≡ i
  pub bounded :
      (q : ℕ) (items : List Job) → get s.queues q ≡ some items → length items ≤ queue_maxsize
  pub allocated : (q : ℕ) (items : List Job) → get s.queues q ≡ some items → q < s.next_queue

pub IsValid-empty : IsValid empty
unfolding get
IsValid-empty = record {
  unique = tt;
  unique_listeners = tt;
  unique_queues = tt;
  named = λ i job h. cc;
  bounded = λ q items h. cc;
  allocated = λ q items h. cc;
}

job_id-setattr : (f : Field) (job : Job) → (setattr f job).job_id ≡ job.job_id
unfolding setattr
job_id-setattr (Field.set_status v) job = refl
job_id-setattr (Field.set_stage v) job = refl
job_id-setattr _ job = refl

pub job_id-setattrs : (fs : List Field) (job : Job) → (setattrs fs job).job_id ≡ job.job_id
unfolding setattrs
job_id-setattrs [] job = refl
job_id-setattrs (f ∷ fs) job = rw (job_id-setattrs fs (setattr f job)) (job_id-setattr f job)

length-put_nowait :
    (event : Job) (items : List Job)
    → length items ≤ queue_maxsize
    → length (put_nowait event items) ≤ queue_maxsize
unfolding put_nowait
length-put_nowait event items h = ground (arith, length-append items (event ∷ []))

-- The queues alone: what `notify` keeps.
record AreQueues (n : ℕ) (queues : Dict ℕ (List Job)) : Type 0 where
  unique : IsDict queues
  bounded : (q : ℕ) (items : List Job) → get queues q ≡ some items → length items ≤ queue_maxsize
  allocated : (q : ℕ) (items : List Job) → get queues q ≡ some items → q < n

AreQueues-put :
    (n q : ℕ) (items : List Job) (queues : Dict ℕ (List Job))
    → q < n
    → length items ≤ queue_maxsize
    → AreQueues n queues
    → AreQueues n (put queues q items)
AreQueues-put n q items queues below fits h = record {
  unique = put-IsDict queues q items h.unique;
  bounded = λ j xs found. ground (arith, get-put queues q j items, found, h.bounded j xs, fits);
  allocated =
      λ j xs found. ground (arith, get-put queues q j items, found, h.allocated j xs, below);
}

notify-AreQueues :
    (n : ℕ) (event : Job) (qs : List ℕ) (queues : Dict ℕ (List Job))
    → AreQueues n queues
    → AreQueues n (notify event qs queues)
unfolding notify
notify-AreQueues n event [] queues h = h
notify-AreQueues n event (q ∷ rest) queues h = elim (Option-cases (get queues q)) [
  | inl absent ↦ rw (absent, notify) (notify-AreQueues n event rest queues h)
  | inr (items, found) ↦
      rw (found, notify)
        (notify-AreQueues n event rest (put queues q (put_nowait event items)) (
          AreQueues-put n q (put_nowait event items) queues (h.allocated q items found)
            (length-put_nowait event items (h.bounded q items found)) h))
]

queues_of : {s : Store} → IsValid s → AreQueues s.next_queue s.queues
queues_of v = record { unique = v.unique_queues; bounded = v.bounded; allocated = v.allocated }

pub create_job-IsValid :
    (now : ℕ) (fresh : String) (input : JobInput) {s : Store}
    → IsValid s
    → IsValid (create_job now fresh input s).1
unfolding create_job new_job
create_job-IsValid now fresh input {s} v =
    let jid = choose_id input.job_id fresh in
    record {
      unique = put-IsDict s.jobs jid (create_job now fresh input s).0 v.unique;
      unique_listeners = put-IsDict s.listeners jid [] v.unique_listeners;
      unique_queues = v.unique_queues;
      named = λ i job found. ground (
        arith,
        get-put s.jobs jid i (create_job now fresh input s).0,
        string_eq.eqb_iff jid i,
        found,
        v.named i job,
      );
      bounded = v.bounded;
      allocated = v.allocated;
    }

pub remove_job-IsValid : (i : String) {s : Store} → IsValid s → IsValid (remove_job i s)
unfolding remove_job
remove_job-IsValid i {s} v = record {
  unique = pop-IsDict s.jobs i v.unique;
  unique_listeners = pop-IsDict s.listeners i v.unique_listeners;
  unique_queues = v.unique_queues;
  named = λ j job found. ground (arith, get-pop s.jobs i j, found, v.named j job);
  bounded = v.bounded;
  allocated = v.allocated;
}

pub get_job-IsValid : (now : ℕ) (i : String) {s : Store} → IsValid s → IsValid (get_job now i s).1
unfolding get_job expire
get_job-IsValid now i {s} v = ground (arith, remove_job-IsValid i v)

pub remove_all-IsValid : (ids : List String) {s : Store} → IsValid s → IsValid (remove_all ids s)
unfolding remove_all
remove_all-IsValid [] v = v
remove_all-IsValid (i ∷ rest) v = remove_all-IsValid rest (remove_job-IsValid i v)

pub list_jobs-IsValid : (now limit : ℕ) {s : Store} → IsValid s → IsValid (list_jobs now limit s).1
unfolding list_jobs
list_jobs-IsValid now limit {s} v = remove_all-IsValid (stale_ids now s.jobs) v

pub update_job-IsValid :
    (now : ℕ) (i : String) (fields : List Field) {s : Store}
    → IsValid s
    → IsValid (update_job now i fields s).1
unfolding update_job update_found
update_job-IsValid now i fields {s} v = elim (Option-cases (get s.jobs i)) [
  | inl absent ↦ rw absent v
  | inr (job, found) ↦
      let job' : Job = record (setattrs fields job) { updated_at = now } in
      let qs =
        notify-AreQueues s.next_queue (to_dict job') (listeners_of s i) s.queues (queues_of v) in
      rw found record {
        unique = put-IsDict s.jobs i job' v.unique;
        unique_listeners = v.unique_listeners;
        unique_queues = qs.unique;
        named = λ j other seen. ground (
          arith,
          get-put s.jobs i j job',
          string_eq.eqb_iff i j,
          seen,
          v.named j other,
          v.named i job found,
          job_id-setattrs fields job,
        );
        bounded = qs.bounded;
        allocated = qs.allocated;
      }
]

pub add_listener-IsValid : (i : String) {s : Store} → IsValid s → IsValid (add_listener i s).1
unfolding add_listener
add_listener-IsValid i {s} v = record {
  unique = v.unique;
  unique_listeners =
      put-IsDict s.listeners i (listeners_of s i ++ s.next_queue ∷ []) v.unique_listeners;
  unique_queues = put-IsDict s.queues s.next_queue [] v.unique_queues;
  named = v.named;
  bounded =
      λ q items found. ground (arith, get-put s.queues s.next_queue q [], found, v.bounded q items);
  allocated = λ q items found. ground (
    arith,
    get-put s.queues s.next_queue q [],
    nat_eq.eqb_iff s.next_queue q,
    found,
    v.allocated q items,
  );
}

pub remove_listener-IsValid :
    (i : String) (q : ℕ) {s : Store} → IsValid s → IsValid (remove_listener i q s)
unfolding remove_listener
remove_listener-IsValid i q {s} v = elim (Option-cases (get s.listeners i)) [
  | inl absent ↦ rw (absent, remove_listener) v
  | inr (qs, found) ↦
      rw (found, remove_listener)
        record {
          unique = v.unique;
          unique_listeners = put-IsDict s.listeners i (remove_first q qs) v.unique_listeners;
          unique_queues = v.unique_queues;
          named = v.named;
          bounded = v.bounded;
          allocated = v.allocated;
        }
]

-- The calls that the worker makes, each at the time of its clock.
pub data Call : Type 0 where
  create : String → JobInput → Call
  look_up remove : String → Call
  list : ℕ → Call
  update : String → List Field → Call
  listen : String → Call
  unlisten : String → ℕ → Call

unfoldable pub run_call : ℕ → Call → Store → Store
run_call now (create fresh input) s = (create_job now fresh input s).1
run_call now (look_up i) s = (get_job now i s).1
run_call now (remove i) s = remove_job i s
run_call now (list limit) s = (list_jobs now limit s).1
run_call now (update i fields) s = (update_job now i fields s).1
run_call now (listen i) s = (add_listener i s).1
run_call now (unlisten i q) s = remove_listener i q s

unfoldable pub run_calls : List (ℕ × Call) → Store → Store
unfolding run_call
run_calls [] s = s
run_calls ((now, c) ∷ rest) s = run_calls rest (run_call now c s)

run_call-IsValid : (now : ℕ) (c : Call) {s : Store} → IsValid s → IsValid (run_call now c s)
unfolding run_call
run_call-IsValid now (create fresh input) v = create_job-IsValid now fresh input v
run_call-IsValid now (look_up i) v = get_job-IsValid now i v
run_call-IsValid now (remove i) v = remove_job-IsValid i v
run_call-IsValid now (list limit) v = list_jobs-IsValid now limit v
run_call-IsValid now (update i fields) v = update_job-IsValid now i fields v
run_call-IsValid now (listen i) v = add_listener-IsValid i v
run_call-IsValid now (unlisten i q) v = remove_listener-IsValid i q v

-- Whatever calls are made, and whenever, a well-formed store stays well-formed: every id stands
-- once and names its own job, and no event queue holds more than 32 events or was never allocated.
pub run_calls-IsValid :
    (calls : List (ℕ × Call)) (s : Store) → IsValid s → IsValid (run_calls calls s)
unfolding run_calls
run_calls-IsValid [] s v = v
run_calls-IsValid ((now, c) ∷ rest) s v =
    run_calls-IsValid rest (run_call now c s) (run_call-IsValid now c v)
