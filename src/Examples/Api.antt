-- ===== src/Examples/Api.antt =====
-- Runs of the modelled routes and watchdog of pipeline-worker/main.py, and of the ends of a run in
-- pipeline-worker/pipeline.py.
use ai_trans_clips_tts.Prelude.{
  ◌≤◌, ◌≡◌, refl, ◌⊎◌, arith, String, true, false, none, some, [], ◌∷◌, string_eq,
}
use ai_trans_clips_tts.Prelude.Int.{pos, negsuc}
use ai_trans_clips_tts.Prelude.Dict.{get, values}
use ai_trans_clips_tts.Pipeline.Jobs.{
  Job, processing, completed, Store, empty, is_expired, to_dict, new_job, list_jobs, stale_ids,
  remove_all, TranslateOptions,
}
use ai_trans_clips_tts.Pipeline.Jobs.Updates.{Call, run_calls}
use ai_trans_clips_tts.Pipeline.Api.{
  TranslateRequest, queue_max_depth, in_flight, create_translate_job, is_terminal, cancel_job,
  Limits,
}
use ai_trans_clips_tts.Pipeline.Api.Submit.{create_translate_job_bounds}
use ai_trans_clips_tts.Pipeline.Api.Cancel.{canceled_at, cancel_job_exact}
use ai_trans_clips_tts.Pipeline.Run.{finish_run, Rendered}
use ai_trans_clips_tts.Pipeline.Run.Ends.{finish_run-cancel_job}
use ai_trans_clips_tts.Examples.Samples.{input, job_of}

abbrev options : TranslateOptions
options = record {
  original_audio_volume_db = negsuc 19;
  mute_original = false;
  subtitle_position = "bottom";
  remove_original_subtitles = true;
  burn_subtitles = true;
  subtitle_style = none;
  watermark = none;
  context = none;
  glossary = none;
  min_speed = 80;
  max_speed = 130;
}

abbrev request : TranslateRequest
request = record {
  source_url = some "https://example.com/clip";
  source_key = none;
  source_language = "auto";
  target_language = "vi";
  voice = none;
  options = options;
  priority = pos 0;
  max_concurrent_jobs = none;
  max_duration_seconds = none;
  gemini_tier = none;
  user_id = some "u";
  job_id = none;
}

abbrev one_running : Store
one_running = record empty {
  jobs = ("a", record (job_of "a" "u" 0 5) { status = processing }) ∷ [];
}

abbrev running : Job
running = record (job_of "a" "u" 0 5) { status = processing }

create_translate_job_bounds_example :
    in_flight (values (create_translate_job 5 "x" request none none (λ r. "k") empty).1.jobs)
    ≤ queue_max_depth
create_translate_job_bounds_example =
    create_translate_job_bounds 5 "x" request none none (λ r. "k") empty
      (unfold list_jobs stale_ids remove_all values in omega arith)
      (unfold list_jobs stale_ids remove_all get in refl) (unfold in_flight values in omega arith)

found_running : get one_running.jobs "a" ≡ some running
unfolding get
found_running = refl

alive : is_expired 10 running ≡ false
unfolding is_expired new_job
alive = refl

cancel_job_exact_example :
    (is_terminal running.status ≡ true)
      × (cancel_job 10 "a" one_running ≡ (some (to_dict running), one_running))
    ⊎ (is_terminal running.status ≡ false)
      × ((cancel_job 10 "a" one_running).0 ≡ some (to_dict (canceled_at 10 running)))
      × (get (cancel_job 10 "a" one_running).1.jobs "a" ≡ some (canceled_at 10 running))
cancel_job_exact_example = cancel_job_exact 10 "a" one_running running found_running alive

abbrev rendered : Rendered
rendered = record { artifacts = []; translated = "out/a/translated.mp4"; file_size = some 9 }

finish_run-cancel_job_example :
    (get (cancel_job 10 "a" one_running).1.jobs "a" ≡ some (canceled_at 10 running))
    × ((after : Job) × (get
            (finish_run 20 "a" [] rendered (cancel_job 10 "a" one_running).1).jobs
            "a"
          ≡ some after)
        × (after.status ≡ completed)
        × (after.error ≡ (canceled_at 10 running).error))
finish_run-cancel_job_example =
    finish_run-cancel_job 10 20 "a" [] rendered one_running running found_running alive refl

-- A job that was queued at 0 and has waited past the limit of 15 minutes.
abbrev waiting : Store
waiting = run_calls ((0, Call.create "x" (record input { job_id = some "w" })) ∷ []) empty

abbrev limits : Limits
limits = record { queue_timeout = 900000; job_timeout = 1800000 }

abbrev message : String → Job → String
message code job = code
