-- ===== src/Tts/JobStore.antt =====
-- app/services/job_store.py: the job record and MemoryJobStore, the store of a single process. Ids
-- and texts are lists of code points, times are milliseconds. `heapq` keeps its least entry first;
-- the model keeps the whole queue in order.
pub mod Queue
pub mod Score
pub mod Active
use ai_trans_clips_tts.Prelude.{
  ℕ, suc, ◌+◌, ◌*◌, Bool, true, false, ◌&&◌, ◌||◌, not, Option, none, some, List, [], ◌∷◌, HasEq,
  ◌==◌, nat_eq, list_eq, if◌then◌else◌, length, any,
}
use ai_trans_clips_tts.Prelude.Int.{ℤ, pos_part, neg_part, sub_ℕ, ltb_ℤ}
use ai_trans_clips_tts.Prelude.Dict.{Dict, get, put}
use ai_trans_clips_tts.Prelude.Sorting.{insert}
use ai_trans_clips_tts.Prelude.Text.{Text, text_leb}

-- JOB_QUEUED, JOB_PROCESSING, JOB_COMPLETED, JOB_FAILED
pub data TtsStatus : Type 0 where
  queued processing completed failed : TtsStatus

pub record TtsJob : Type 0 where
  pub id : Text
  pub status : TtsStatus
  pub progress : ℕ
  pub stage : Text
  pub error : Option Text
  pub text : Text
  pub language : Text
  pub voice : Option Text
  pub fmt : Text
  pub owner : Option ℕ
  pub user_id : Option ℕ
  pub priority : ℤ
  pub tier : Option Text
  pub audio_path : Option Text
  pub created_at : ℕ
  pub updated_at : ℕ
  pub started_at : Option ℕ
  pub finished_at : Option ℕ

-- What leaves the worker: neither the text nor the path.
pub record PublicJob : Type 0 where
  pub job_id : Text
  pub status : TtsStatus
  pub progress : ℕ
  pub stage : Text
  pub error : Option Text
  pub language : Text
  pub voice : Option Text
  pub format : Text
  pub text_length : ℕ
  pub user_id : Option ℕ
  pub priority : ℤ
  pub tier : Option Text
  pub created_at : ℕ
  pub updated_at : ℕ
  pub started_at : Option ℕ
  pub finished_at : Option ℕ
  pub has_audio : Bool

abbrev pub is_completed : TtsStatus → Bool
is_completed completed = true
is_completed _ = false

abbrev is_some {ℓ} : {A : Type ℓ} → Option A → Bool
is_some none = false
is_some (some a) = true

unfoldable pub public : TtsJob → PublicJob
public job = record {
  job_id = job.id;
  status = job.status;
  progress = job.progress;
  stage = job.stage;
  error = job.error;
  language = job.language;
  voice = job.voice;
  format = job.fmt;
  text_length = length job.text;
  user_id = job.user_id;
  priority = job.priority;
  tier = job.tier;
  created_at = job.created_at;
  updated_at = job.updated_at;
  started_at = job.started_at;
  finished_at = job.finished_at;
  has_audio = is_some job.audio_path && is_completed job.status;
}

abbrev pub score_scale : ℕ
score_scale = 1000000000000

-- `priority * SCORE_SCALE - seq`
unfoldable pub score : ℤ → ℕ → ℤ
score priority seq = sub_ℕ (pos_part priority * score_scale) (neg_part priority * score_scale + seq)

unfoldable pub negated : ℤ → ℤ
negated a = sub_ℕ (neg_part a) (pos_part a)

-- An entry of the heap, and the order of such pairs.
abbrev pub Entry : Type 0
Entry = ℤ × Text

unfoldable pub entry_leb : Entry → Entry → Bool
entry_leb (a, i) (b, j) = ltb_ℤ a b || (not (ltb_ℤ b a) && text_leb i j)

-- The keyword arguments that the callers of `update` pass.
pub data Change : Type 0 where
  set_status : TtsStatus → Change
  set_progress : ℕ → Change
  set_stage : Text → Change
  set_error : Option Text → Change
  set_audio_path : Option Text → Change
  set_started_at set_finished_at : Option ℕ → Change

unfoldable pub set_field : Change → TtsJob → TtsJob
set_field (set_status v) job = record job { status = v }
set_field (set_progress v) job = record job { progress = v }
set_field (set_stage v) job = record job { stage = v }
set_field (set_error v) job = record job { error = v }
set_field (set_audio_path v) job = record job { audio_path = v }
set_field (set_started_at v) job = record job { started_at = v }
set_field (set_finished_at v) job = record job { finished_at = v }

unfoldable pub set_fields : List Change → TtsJob → TtsJob
unfolding set_field
set_fields [] job = job
set_fields (c ∷ rest) job = set_fields rest (set_field c job)

pub record MemoryJobStore : Type 0 where
  pub jobs : Dict Text TtsJob
  pub queue : List Entry
  pub seq : ℕ
  pub active : Dict Text (List Text)

unfoldable pub new_store : MemoryJobStore
new_store = record { jobs = []; queue = []; seq = 0; active = [] }

unfoldable pub create : TtsJob → MemoryJobStore → MemoryJobStore
create job s = record s { jobs = put s.jobs job.id job }

unfoldable pub get_job : Text → MemoryJobStore → Option TtsJob
get_job job_id s = get s.jobs job_id

unfoldable pub update : ℕ → Text → List Change → MemoryJobStore → MemoryJobStore
unfolding set_fields
update now job_id changes s = elim (get s.jobs job_id) [
  | none ↦ s
  | some job ↦ record s {
    jobs = put s.jobs job_id (record (set_fields changes job) { updated_at = now });
  }
]

unfoldable pub enqueue : Text → ℤ → MemoryJobStore → MemoryJobStore
unfolding score negated entry_leb
enqueue job_id priority s =
    let seq = suc s.seq in
    record s { seq = seq; queue = insert entry_leb (negated (score priority seq), job_id) s.queue }

-- `heappop`; with an empty queue the caller waits, and gets None when the time is up.
unfoldable pub pop_first : List Entry → Option Text × List Entry
pop_first [] = (none, [])
pop_first ((key, job_id) ∷ rest) = (some job_id, rest)

unfoldable pub dequeue : MemoryJobStore → Option Text × MemoryJobStore
unfolding pop_first
dequeue s = let (job_id, rest) = pop_first s.queue in (job_id, record s { queue = rest })

-- A set of ids, as a list without repetition.
unfoldable pub set_add : Text → List Text → List Text
set_add i ids = if any (λ j. j == i) ids then ids else i ∷ ids

unfoldable pub set_discard : Text → List Text → List Text
set_discard i [] = []
set_discard i (j ∷ ids) = if j == i then set_discard i ids else j ∷ set_discard i ids

-- `self._active.get(tier, set())`
abbrev pub active_of : MemoryJobStore → Text → List Text
active_of s tier = elim (get s.active tier) [ none ↦ [] | some ids ↦ ids ]

unfoldable pub add_active : Text → Text → MemoryJobStore → MemoryJobStore
unfolding set_add
add_active tier job_id s = record s {
  active = put s.active tier (set_add job_id (active_of s tier));
}

-- The discard from a default set has no effect.
unfoldable pub remove_active : Text → Text → MemoryJobStore → MemoryJobStore
unfolding set_discard
remove_active tier job_id s = elim (get s.active tier) [
  | none ↦ s
  | some ids ↦ record s { active = put s.active tier (set_discard job_id ids) }
]

unfoldable pub count_active : Text → MemoryJobStore → ℕ
count_active tier s = length (active_of s tier)
