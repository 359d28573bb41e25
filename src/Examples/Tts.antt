-- ===== src/Examples/Tts.antt =====
-- Runs of the modelled app/services/job_store.py and app/services/job_runner.py.
use ai_trans_clips_tts.Prelude.{
  ℕ, ◌≡◌, refl, arith, true, false, none, some, List, [], ◌∷◌, ◌++◌, list_eq, nat_eq,
}
use ai_trans_clips_tts.Prelude.Int.{pos, negsuc}
use ai_trans_clips_tts.Prelude.Dict.{get, put}
use ai_trans_clips_tts.Prelude.Sorting.{insert}
use ai_trans_clips_tts.Prelude.Text.{Text, codes}
use ai_trans_clips_tts.Tts.JobStore.{
  TtsJob, queued, MemoryJobStore, new_store, enqueue, dequeue, remove_active, update,
}
use ai_trans_clips_tts.Tts.JobStore.Queue.{Op, push, take_next, answers, promised, queue_refines}
use ai_trans_clips_tts.Tts.JobRunner.{
  Engine, Timing, Report, returned, raised, process_job, synthesise,
}
use ai_trans_clips_tts.Tts.JobRunner.Ending.{IsEnded, SameRequest, process_job_ends}
use ai_trans_clips_tts.Tts.JobRunner.Consumer.{waits}

abbrev a_id : Text
a_id = codes "a1"

abbrev b_id : Text
b_id = codes "b2"

abbrev free : Text
free = codes "free"

abbrev waiting_job : Text → TtsJob
waiting_job i = record {
  id = i;
  status = queued;
  progress = 0;
  stage = [];
  error = none;
  text = codes "xin chao";
  language = codes "vi";
  voice = none;
  fmt = codes "mp3";
  owner = none;
  user_id = some 7;
  priority = pos 10;
  tier = some free;
  audio_path = none;
  created_at = 5;
  updated_at = 5;
  started_at = none;
  finished_at = none;
}

abbrev history : List Op
history =
    push a_id (pos 10)
    ∷ push b_id (pos 500)
    ∷ take_next
    ∷ push b_id (pos 10)
    ∷ take_next
    ∷ take_next
    ∷ take_next
    ∷ []

answers_test : answers history new_store ≡ some b_id ∷ some a_id ∷ some b_id ∷ none ∷ []
unfolding answers new_store enqueue dequeue insert
answers_test = refl

queue_refines_example : answers history new_store ≡ promised history []
queue_refines_example = queue_refines history (omega arith)

-- One waiting job that holds a slot of its tier.
abbrev one_job : MemoryJobStore
one_job = record {
  jobs = (a_id, waiting_job a_id) ∷ [];
  queue = (negsuc 4, a_id) ∷ [];
  seq = 1;
  active = (free, a_id ∷ []) ∷ [];
}

-- A synthesis that goes to 60, back to 40 and on to 90, and returns a path.
abbrev reports : List Report
reports = (11, 60, codes "synth") ∷ (12, 40, codes "synth") ∷ (13, 90, codes "encode") ∷ []

abbrev engine : Engine ℕ
engine = record {
  output_path = λ name. codes "out/" ++ name;
  load_voice = λ owner voice. raised (codes "no voice") (codes "KeyError");
  generate_tts =
      λ text language voice dest fmt data_. record { calls = reports; outcome = returned dest };
}

abbrev timing : Timing
timing = record { start_time = 10; end_time = 20; on_time = 1 }

found_a : get one_job.jobs a_id ≡ some (waiting_job a_id)
unfolding get
found_a = refl

process_test :
    (waits a_id one_job ≡ true) × (waits a_id (process_job engine timing a_id one_job) ≡ false)
unfolding get process_job put remove_active update
process_test = (refl, refl)

process_job_ends_example :
    (after : TtsJob) × (get (process_job engine timing a_id one_job).jobs a_id ≡ some after)
    × IsEnded 20 (synthesise engine (waiting_job a_id) a_id).outcome (waiting_job a_id) after
    × (after.started_at ≡ some 10)
    × SameRequest after (waiting_job a_id)
process_job_ends_example =
    process_job_ends engine timing (waiting_job a_id) a_id one_job found_a refl
