-- ===== src/Pipeline/Jobs.antt =====
-- pipeline-worker/jobs.py, and the options of a request from pipeline-worker/main.py: the job
-- record, the in-memory store with its lazy expiry, and the queues of the event streams. A time is
-- a number of milliseconds, given to each operation as `now`.
mod Record
pub mod Expiry
pub mod Lookup
pub mod Updates
pub mod Listing
pub mod Streams
unfoldable pub use Record.*
use ai_trans_clips_tts.Prelude.{
  ℕ, suc, ◌+◌, ◌-◌, ◌*◌, String, Bool, true, false, ◌&&◌, Option, none, some, List, [], ◌∷◌, ◌++◌,
  HasEq, ◌==◌, string_eq, nat_eq, option_eq, if◌then◌else◌, ltb, leb, length, take, filter, map,
}
use ai_trans_clips_tts.Prelude.Dict.{Dict, get, put, pop, values}
use ai_trans_clips_tts.Prelude.Sorting.{sort}
use ai_trans_clips_tts.Prelude.Text.{truncate}

-- JOB_TTL_SECONDS, in milliseconds
abbrev pub job_ttl : ℕ
job_ttl = 3600 * 1000

-- `asyncio.Queue(maxsize=32)`
abbrev pub queue_maxsize : ℕ
queue_maxsize = 32

-- The module's globals. A queue is an object that the store and a stream share, so the listeners
-- hold references to it; `unlinked` is the trace of the files that the store has deleted.
pub record Store : Type 0 where
  pub jobs : Dict String Job
  pub listeners : Dict String (List ℕ)
  pub queues : Dict ℕ (List Job)
  pub next_queue : ℕ
  pub unlinked : List String

abbrev pub empty : Store
empty = record { jobs = []; listeners = []; queues = []; next_queue = 0; unlinked = [] }

-- `now - job.updated_at > JOB_TTL_SECONDS`
unfoldable pub is_expired : ℕ → Job → Bool
is_expired now job = ltb job_ttl (now - job.updated_at)

-- `(job_id or uuid.uuid4().hex)[:64]`: an absent or empty id is replaced by a fresh one
unfoldable pub choose_id : Option String → String → String
choose_id none fresh = truncate 64 fresh
choose_id (some i) fresh = truncate 64 (if i == "" then fresh else i)

unfoldable pub create_job : ℕ → String → JobInput → Store → Job × Store
unfolding choose_id new_job
create_job now fresh input s =
    let jid = choose_id input.job_id fresh in
    let job = new_job now jid input in
    (job, record s { jobs = put s.jobs jid job; listeners = put s.listeners jid [] })

unfoldable pub is_live : JobStatus → Bool
is_live queued = true
is_live processing = true
is_live completed = true
is_live _ = false

abbrev pub matches_key : Option String → String → Job → Bool
matches_key user_id key job = job.idempotency_key == some key && job.user_id == user_id

unfoldable pub find_in : Option String → String → List Job → Option Job
unfolding is_live
find_in user_id key [] = none
find_in user_id key (job ∷ rest) =
    if matches_key user_id key job && is_live job.status then some job else find_in user_id key rest

unfoldable pub find_by_idempotency_key : Option String → String → Store → Option Job
unfolding find_in
find_by_idempotency_key user_id key s = find_in user_id key (values s.jobs)

unfoldable pub unlink_file : Option Job → List String → List String
unlink_file none trace = trace
unlink_file (some job) trace = elim job.file_path [
  | none ↦ trace
  | some path ↦ if path == "" then trace else path ∷ trace
]

unfoldable pub remove_job : String → Store → Store
unfolding unlink_file
remove_job job_id s = record s {
  jobs = pop s.jobs job_id;
  listeners = pop s.listeners job_id;
  unlinked = unlink_file (get s.jobs job_id) s.unlinked;
}

-- A job past its time to live is dropped when it is asked for.
unfoldable pub expire : ℕ → String → Option Job → Store → Option Job × Store
unfolding is_expired remove_job
expire now job_id none s = (none, s)
expire now job_id (some job) s =
    if is_expired now job then (none, remove_job job_id s) else (some job, s)

unfoldable pub get_job : ℕ → String → Store → Option Job × Store
unfolding expire
get_job now job_id s = expire now job_id (get s.jobs job_id) s

unfoldable pub stale_ids : ℕ → Dict String Job → List String
unfolding is_expired
stale_ids now [] = []
stale_ids now ((jid, job) ∷ rest) =
    if is_expired now job then jid ∷ stale_ids now rest else stale_ids now rest

unfoldable pub remove_all : List String → Store → Store
unfolding remove_job
remove_all [] s = s
remove_all (jid ∷ rest) s = remove_all rest (remove_job jid s)

-- `key=lambda j: j.created_at, reverse=True`
abbrev pub newest_first : Job → Job → Bool
newest_first a b = leb b.created_at a.created_at

unfoldable pub list_jobs : ℕ → ℕ → Store → List Job × Store
unfolding stale_ids remove_all
list_jobs now limit s =
    let s' = remove_all (stale_ids now s.jobs) s in
    (take limit (sort newest_first (values s'.jobs)), s')

-- `q.put_nowait(d)`, where a full queue drops the event
unfoldable pub put_nowait : Job → List Job → List Job
put_nowait event q = if ltb (length q) queue_maxsize then q ++ event ∷ [] else q

unfoldable pub notify : Job → List ℕ → Dict ℕ (List Job) → Dict ℕ (List Job)
unfolding put_nowait
notify event [] queues = queues
notify event (q ∷ rest) queues = elim (get queues q) [
  | none ↦ notify event rest queues
  | some items ↦ notify event rest (put queues q (put_nowait event items))
]

-- `_listeners.get(job_id, [])`
abbrev pub listeners_of : Store → String → List ℕ
listeners_of s job_id = elim (get s.listeners job_id) [ none ↦ [] | some qs ↦ qs ]

unfoldable pub update_found : ℕ → String → List Field → Option Job → Store → Option Job × Store
unfolding setattrs notify to_dict
update_found now job_id fields none s = (none, s)
update_found now job_id fields (some job) s =
    let job' = record (setattrs fields job) { updated_at = now } in
    (
      some job',
      record s {
        jobs = put s.jobs job_id job';
        queues = notify (to_dict job') (listeners_of s job_id) s.queues;
      },
    )

unfoldable pub update_job : ℕ → String → List Field → Store → Option Job × Store
unfolding update_found
update_job now job_id fields s = update_found now job_id fields (get s.jobs job_id) s

-- A new queue, registered for the job's events.
unfoldable pub add_listener : String → Store → ℕ × Store
add_listener job_id s =
    let q = s.next_queue in
    (
      q,
      record s {
        listeners = put s.listeners job_id (listeners_of s job_id ++ q ∷ []);
        queues = put s.queues q [];
        next_queue = suc q;
      },
    )

-- `lst.remove(q)`: the first occurrence
unfoldable pub remove_first : ℕ → List ℕ → List ℕ
remove_first q [] = []
remove_first q (x ∷ xs) = if x == q then xs else x ∷ remove_first q xs

unfoldable pub remove_listener : String → ℕ → Store → Store
unfolding remove_first
remove_listener job_id q s = elim (get s.listeners job_id) [
  | none ↦ s
  | some qs ↦ record s { listeners = put s.listeners job_id (remove_first q qs) }
]
