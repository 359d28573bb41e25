-- ===== src/Examples/Gemini.antt =====
-- Small inputs for the models of pipeline-worker/gemini.py and pipeline-worker/cache.py.
use ai_trans_clips_tts.Prelude.{
  ℕ, zero, suc, ◌+◌, ◌≤◌, ◌≡◌, refl, arith, false, none, some, List, [], ◌∷◌, length, list_eq,
  nat_eq,
}
use ai_trans_clips_tts.Prelude.Int.{pos}
use ai_trans_clips_tts.Prelude.Dict.{get, put, pop, IsDict}
use ai_trans_clips_tts.Prelude.Text.{Text, codes, strip, parse_int}
use ai_trans_clips_tts.Prelude.Sorting.{sort}
use ai_trans_clips_tts.Pipeline.Cache.Hits.{IsNewest-nil}
use ai_trans_clips_tts.Pipeline.Segments.{Segment}
use ai_trans_clips_tts.Pipeline.Chunking.{TranscriptionResult}
use ai_trans_clips_tts.Pipeline.Cache.{Cache, Limits, File, empty_cache, put_cache, size}
use ai_trans_clips_tts.Pipeline.Cache.Bounds.{put_cache_bounds}
use ai_trans_clips_tts.Pipeline.Gemini.{
  Failure, Result, ok, quota_exhausted, classify_genai_error, key_pool, attempts_of, models_of,
}
use ai_trans_clips_tts.Pipeline.Gemini.Transcribe.{
  Sdk, Settings, Answer, failed, answer, reply, row, number, text, attempt_call, from_cache,
  transcribe_and_translate,
}
use ai_trans_clips_tts.Pipeline.Gemini.Translate
use ai_trans_clips_tts.Pipeline.Gemini.Translate.{translate_text}
use ai_trans_clips_tts.Pipeline.Gemini.Timeline.{Keeps, translate_text-Keeps}
use ai_trans_clips_tts.Pipeline.Gemini.Answers.{IsAnswered, transcribe_and_translate-IsAnswered}
use ai_trans_clips_tts.Pipeline.Gemini.Reuse.{transcribe_and_translate_twice}

-- A cache of at most two files and ten bytes.
abbrev small : Limits
small = record { ttl = 100; max_files = 2; max_bytes = 10 }

abbrev file : ℕ → List ℕ → File
file mtime content = record { mtime = mtime; content = content }

abbrev two_files : Cache
two_files = record empty_cache {
  files = (codes "b", file 20 (1 ∷ 2 ∷ [])) ∷ (codes "a", file 10 (3 ∷ [])) ∷ [];
}

-- The oldest file makes room.
put_test :
    (put_cache small 30 (codes "c") (4 ∷ []) two_files).files
    ≡ (codes "b", file 20 (1 ∷ 2 ∷ [])) ∷ (codes "c", file 30 (4 ∷ [])) ∷ []
unfolding put_cache put pop sort
put_test = refl

two_files-IsDict : IsDict two_files.files
unfolding get
two_files-IsDict = (refl, (refl, tt))

put_cache_bounds_example :
    (length (put_cache small 30 (codes "c") (4 ∷ []) two_files).files ≤ 2)
    × (size (put_cache small 30 (codes "c") (4 ∷ []) two_files).files ≤ 10)
    × IsDict (put_cache small 30 (codes "c") (4 ∷ []) two_files).files
put_cache_bounds_example = put_cache_bounds small 30 (codes "c") (4 ∷ []) two_files two_files-IsDict

abbrev out_of_quota : Failure
out_of_quota = record { message = codes "Quota exceeded"; status_code = some 429; code = none }

classify_test : classify_genai_error out_of_quota ≡ quota_exhausted
unfolding classify_genai_error
classify_test = refl

-- The first request is out of quota, the others are answered.
abbrev answers : ℕ → Answer
answers zero =
    failed (record { message = codes "Quota exceeded"; status_code = some 429; code = none })
answers (suc n) = answer (
    reply (some "en")
      (row (text (codes "0:01")) (number (pos 2500)) (codes "hi") (codes "chao") ∷ []))

abbrev sdk : Sdk
sdk = record {
  generate = λ n model key. answers n;
  late = λ n. false;
  clock = λ n. n;
  float = λ s. some (pos 1000);
  schema_error = codes "validation error";
}

abbrev hello : TranscriptionResult
hello = record {
  detected_language = "en";
  segments =
      record { start = 1000; end = 2500; source_text = codes "hi"; target_text = codes "chao" }
      ∷ [];
  input_tokens = 0;
  output_tokens = 0;
}

abbrev settings : Settings
settings = record {
  getenv = λ name. codes "k1,k2";
  default_model = codes "m1";
  fallback_models = codes "m2" ∷ [];
  limits = small;
  cache_key = λ audio source target model. model;
  load = λ content. some hello;
  dump = λ result. 1 ∷ [];
}

abbrev audio : List ℕ
audio = 7 ∷ 8 ∷ []

-- The first key fails, the second one answers.
abbrev first_run : Result TranscriptionResult × (ℕ × Cache)
first_run =
    transcribe_and_translate sdk settings (codes "a.flac") (codes "auto") (codes "vi") (some audio)
      (some (codes "free")) 0 empty_cache

transcribe_test : (first_run.0 ≡ ok hello) × (first_run.1.0 ≡ 2)
unfolding transcribe_and_translate get put parse_int sort
transcribe_test = (refl, refl)

abbrev after_miss : Cache
after_miss = record empty_cache { misses = 2 }

pool : key_pool settings.getenv (some (codes "free")) ≡ codes "k1" ∷ codes "k2" ∷ []
unfolding key_pool strip
pool = refl

missed :
    from_cache sdk settings audio
      (codes "auto")
      (codes "vi")
      0
      (models_of (codes "m1") (codes "m2" ∷ []))
      empty_cache
    ≡ (none, after_miss)
unfolding from_cache models_of get
missed = refl

transcribe_and_translate-IsAnswered_example :
    IsAnswered
      (attempt_call sdk settings audio (codes "auto") (codes "vi"))
      (attempts_of (models_of (codes "m1") (codes "m2" ∷ [])) (codes "k1" ∷ codes "k2" ∷ []))
      (0, after_miss)
      first_run
transcribe_and_translate-IsAnswered_example =
    transcribe_and_translate-IsAnswered sdk settings (codes "a.flac") (codes "auto") (codes "vi") 7
      (8 ∷ []) (some (codes "free")) 0 empty_cache after_miss (codes "k1") (codes "k2" ∷ []) pool
      missed

-- The second request of the first model's is kept, and found at the time 50.
abbrev kept_by : Cache
kept_by = record empty_cache { files = (codes "m1", file 2 (1 ∷ [])) ∷ []; writes = 1 }

called :
    attempt_call sdk settings audio
      (codes "auto")
      (codes "vi")
      (codes "m1")
      (codes "k2")
      (1, empty_cache)
    ≡ (ok hello, (2, kept_by))
unfolding attempt_call get put parse_int sort
called = refl

abbrev again : Result TranscriptionResult × (ℕ × Cache)
again =
    transcribe_and_translate sdk settings (codes "a.flac") (codes "auto") (codes "vi") (some audio)
      none 50 kept_by

transcribe_and_translate_twice_example : (again.0 ≡ ok hello) × (again.1.0 ≡ 50)
transcribe_and_translate_twice_example =
    transcribe_and_translate_twice sdk settings (codes "a.flac") (codes "auto") (codes "vi")
      (codes "k2") 7 (8 ∷ []) none 1 2 50 empty_cache kept_by hello 1 [] called refl refl tt
      (omega arith) (omega arith) (IsNewest-nil (codes "m1") 2) (omega arith)

-- One line is translated, one is not, and the third is past the answer.
abbrev line : ℕ → Text → Segment
line at target = record {
  start = at;
  end = at + 500;
  source_text = codes "hi";
  target_text = target;
}

abbrev text_sdk : Translate.Sdk
text_sdk = record {
  generate = λ n model key.
      Translate.answer (Translate.lines (Translate.line (codes "xin") ∷ Translate.missing ∷ []));
  late = λ n. false;
}

abbrev three_lines : List Segment
three_lines = line 0 [] ∷ line 1000 (codes "old") ∷ line 2000 [] ∷ []

translate_test :
    translate_text text_sdk settings.getenv (codes "m1") [] none 0 three_lines
    ≡ (ok tt, (1, line 0 (codes "xin") ∷ line 1000 (codes "old") ∷ line 2000 (codes "hi") ∷ []))
unfolding translate_text
translate_test = refl

translate_text-Keeps_example :
    Keeps 0 three_lines
      (models_of (codes "m1") [])
      (key_pool settings.getenv none)
      (translate_text text_sdk settings.getenv (codes "m1") [] none 0 three_lines).1
translate_text-Keeps_example =
    translate_text-Keeps text_sdk settings.getenv (codes "m1") [] none 0 three_lines
