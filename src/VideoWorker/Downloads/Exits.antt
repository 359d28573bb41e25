-- ===== src/VideoWorker/Downloads/Exits.antt =====
-- What video-worker/downloader.py makes of the end of a process of yt-dlp.
use ai_trans_clips_tts.Prelude.{
  ℕ, zero, suc, ◌+◌, ◌≤◌, ◌<◌, ◌≡◌, refl, inl, inr, Option, none, some, List, [], ◌∷◌, length, ◌==◌,
  nat_eq, list_eq, arith, Bool-cases, lt→ltb, le→ltb,
}
use ai_trans_clips_tts.Prelude.Int.{pos, negsuc}
use ai_trans_clips_tts.Prelude.Dict.{get}
use ai_trans_clips_tts.Prelude.Text.{Text, codes}
use ai_trans_clips_tts.VideoWorker.Errors.{classify}
use ai_trans_clips_tts.VideoWorker.Downloads.{
  World, Disk, File, Files, Process, killed, exited, Result, ok, invalid, raised, adopt, check_size,
  existing,
}
use ai_trans_clips_tts.VideoWorker.Downloads.Trials.{
  Run, Tried, after_run, start_ytdlp, adopt_on, try_runs, run_ytdlp, add_line, ytdlp_args, template,
}
use ai_trans_clips_tts.VideoWorker.Downloads.Calls.{length-++}

-- `_adopt` takes the first file of the job, when it is of a size that is allowed.
adopt-first :
    (max_bytes : ℕ) (job_id path : Text) (rest : List Text) (files : Files) (file : File)
    → existing job_id files ≡ path ∷ rest
    → get files path ≡ some file
    → 1024 < file.size
    → file.size ≤ max_bytes
    → adopt max_bytes job_id files ≡ (ok (some path), files)
unfolding adopt check_size
adopt-first max_bytes job_id path rest files file listed found big fits =
    rw (listed, found, le→ltb max_bytes file.size fits, found, lt→ltb 1024 file.size big) refl

-- However a run of yt-dlp ends, killed by the timeout or with any code, a loop over runs stops with the
-- first file of the job that stands in the output directory, if its size is allowed: a file that is only
-- partly written is returned as the video.
pub try_runs_any_exit :
    (w : World) (url job_id : Text) (run : Run) (runs : List Run) (log : List Text) (d : Disk)
    (path : Text) (rest : List Text) (file : File)
    → existing job_id (start_ytdlp w url job_id run d).1.output ≡ path ∷ rest
    → get (start_ytdlp w url job_id run d).1.output path ≡ some file
    → 1024 < file.size
    → file.size ≤ w.max_bytes
    → try_runs w url job_id (run ∷ runs) log d
      ≡ (ok (some path), log, (start_ytdlp w url job_id run d).1)
unfolding try_runs
try_runs_any_exit w url job_id run runs log d path rest file listed found big fits =
    rw
      (adopt-first w.max_bytes job_id path rest (start_ytdlp w url job_id run d).1.output file
        listed found big fits)
      refl

-- No process is taken for a success: its line is always added.
length-add_line :
    (run : Run) (p : Process) (log : List Text)
    → length (add_line run (run_ytdlp p) log) ≡ length log + 1
unfolding add_line run_ytdlp
length-add_line (jar, proxy, label, fmt) killed log = rw length-++ refl
length-add_line (jar, proxy, label, fmt) (exited none err out) log = rw length-++ refl
length-add_line (jar, proxy, label, fmt) (exited (some (pos zero)) err out) log = rw length-++ refl
length-add_line (jar, proxy, label, fmt) (exited (some (pos (suc n))) err out) log =
    rw length-++ refl
length-add_line (jar, proxy, label, fmt) (exited (some (negsuc n)) err out) log = rw length-++ refl

-- The log after a round that goes on.
after_run-logged :
    (run : Run) (p : Process) (adopted : Result (Option Text)) (log : List Text) (d : Disk)
    (rest : List Text → Disk → Tried) (n : ℕ)
    → ((log' : List Text) (d' : Disk)
        → (rest log' d').0 ≡ ok none
        → length (rest log' d').1 ≡ length log' + n)
    → (after_run run (run_ytdlp p) adopted log d rest).0 ≡ ok none
    → length (after_run run (run_ytdlp p) adopted log d rest).1 ≡ length log + suc n
after_run-logged run p (raised e) log d rest n later = λ h. absurd (cc h)
after_run-logged run p (invalid e) log d rest n later = λ h. absurd (cc h)
after_run-logged run p (ok (some path)) log d rest n later = λ h. absurd (cc h)
after_run-logged run p (ok none) log d rest n later =
    elim (Bool-cases (classify (run_ytdlp p).1 == codes "TOO_LARGE")) [
      | inl large ↦ rw large λ h. absurd (cc h)
      | inr other ↦
          rw other λ h.
            omega (arith, later (add_line run (run_ytdlp p) log) d h, length-add_line run p log)
    ]

-- When no run leaves a video, each of them has added a line to the log, also a run that has exited with
-- code 0.
pub try_runs-logged :
    (w : World) (url job_id : Text) (runs : List Run) (log : List Text) (d : Disk)
    → (try_runs w url job_id runs log d).0 ≡ ok none
    → length (try_runs w url job_id runs log d).1 ≡ length log + length runs
unfolding try_runs
try_runs-logged w url job_id [] log d = λ h. omega arith
try_runs-logged w url job_id ((jar, proxy, label, fmt) ∷ runs) log d =
    let started = (start_ytdlp w url job_id (jar, proxy, label, fmt) d).1 in
    after_run-logged (jar, proxy, label, fmt)
      (w.ytdlp d.calls (ytdlp_args w url fmt (template w job_id) jar proxy) d.output).0
      (adopt_on w url job_id started).0 log (adopt_on w url job_id started).1
      (try_runs w url job_id runs) (length runs)
      (λ log' d' h. try_runs-logged w url job_id runs log' d' h)
