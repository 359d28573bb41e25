-- ===== src/VideoWorker/Downloads/Trials.antt =====
-- The runs of yt-dlp in video-worker/downloader.py: their arguments, their results, and both loops
-- over trials and formats. A run is a cookie jar, a proxy, a label and a format.
use ai_trans_clips_tts.Prelude.{
  ℕ, zero, suc, ◌+◌, ◌-◌, Bool, Option, none, some, List, [], ◌∷◌, ◌++◌, map, if◌then◌else◌, length,
  ◌==◌, nat_eq, list_eq,
}
use ai_trans_clips_tts.Prelude.Int.{ℤ, pos, negsuc}
use ai_trans_clips_tts.Prelude.Text.{Text, codes, strip}
use ai_trans_clips_tts.VideoWorker.Errors.{download_error, classify}
use ai_trans_clips_tts.VideoWorker.Downloads.{
  World, Disk, Process, killed, exited, Result, ok, invalid, raised, formats, adopt,
}

abbrev pub Run : Type 0
Run = Text × Text × Text × Text

abbrev cookie_args : (Text → Bool) → Text → List Text
cookie_args is_file [] = []
cookie_args is_file (c ∷ jar) = if is_file (c ∷ jar) then codes "--cookies" ∷ (c ∷ jar) ∷ [] else []

abbrev proxy_args : Text → List Text
proxy_args [] = []
proxy_args (c ∷ proxy) = codes "--proxy" ∷ (c ∷ proxy) ∷ []

-- `str(output_dir() / f"{job_id}_%(title)s.%(ext)s")`
abbrev pub template : World → Text → Text
template w job_id = w.output_dir ++ codes "/" ++ job_id ++ codes "_%(title)s.%(ext)s"

-- `_ytdlp_args`
unfoldable pub ytdlp_args : World → Text → Text → Text → Text → Text → List Text
ytdlp_args w url fmt tmpl jar proxy =
    w.ytdlp_base
    ++ (codes "-f"
        ∷ fmt
        ∷ codes "--merge-output-format"
        ∷ codes "mp4"
        ∷ codes "--output"
        ∷ tmpl
        ∷ codes "--no-playlist"
        ∷ codes "--no-warnings"
        ∷ codes "--max-filesize"
        ∷ w.max_filesize_arg
        ∷ [])
    ++ cookie_args w.is_file jar
    ++ proxy_args proxy
    ++ url ∷ []

-- `int(proc.returncode or 1)`
abbrev code_or_one : Option ℤ → ℤ
code_or_one none = pos 1
code_or_one (some (pos zero)) = pos 1
code_or_one (some (pos (suc n))) = pos (suc n)
code_or_one (some (negsuc n)) = negsuc n

-- The end of `_run_ytdlp`
unfoldable pub run_ytdlp : Process → ℤ × Text
unfolding strip
run_ytdlp killed = (pos 1, codes "timed out")
run_ytdlp (exited returncode stderr stdout) =
    (code_or_one returncode, strip (stderr ++ codes "\n" ++ stdout))

-- `err[-n:]`
abbrev drop_all_but : ℕ → Text → Text
drop_all_but zero err = err
drop_all_but (suc n) [] = []
drop_all_but (suc n) (c ∷ err) = drop_all_but n err

unfoldable pub last_of : ℕ → Text → Text
last_of n err = drop_all_but (length err - n) err

-- `stderr_log`, with the line of a run that failed
unfoldable pub add_line : Run → ℤ × Text → List Text → List Text
unfolding last_of
add_line (jar, proxy, label, fmt) (pos zero, err) log = log
add_line (jar, proxy, label, fmt) (pos (suc n), err) log =
    log ++ (codes "[" ++ label ++ codes "][" ++ fmt ++ codes "] " ++ last_of 300 err) ∷ []
add_line (jar, proxy, label, fmt) (negsuc n, err) log =
    log ++ (codes "[" ++ label ++ codes "][" ++ fmt ++ codes "] " ++ last_of 300 err) ∷ []

-- What a loop over runs gives: a file or none, `stderr_log`, and the disk.
abbrev pub Tried : Type 0
Tried = Result (Option Text) × List Text × Disk

-- The body of the loop behind `_adopt`; `rest` is the next round.
abbrev pub after_run :
    Run → ℤ × Text → Result (Option Text) → List Text → Disk → (List Text → Disk → Tried) → Tried
after_run run ran (raised e) log d rest = (raised e, log, d)
after_run run ran (invalid e) log d rest = (invalid e, log, d)
after_run run ran (ok (some path)) log d rest = (ok (some path), log, d)
after_run run (rc, err) (ok none) log d rest =
    if classify err == codes "TOO_LARGE"
    then (raised (download_error (codes "TOO_LARGE") []), log, d)
    else rest (add_line run (rc, err) log) d

module _ (w : World) (url job_id : Text) where
  -- One process, and the disk after it.
  abbrev pub start_ytdlp : Run → Disk → (ℤ × Text) × Disk
  start_ytdlp (jar, proxy, label, fmt) d =
      let (process, files) =
        w.ytdlp d.calls (ytdlp_args w url fmt (template w job_id) jar proxy) d.output in
      (run_ytdlp process, record d { output = files; calls = d.calls + 1 })

  abbrev pub adopt_on : Disk → Result (Option Text) × Disk
  adopt_on d =
      let (adopted, files) = adopt w.max_bytes job_id d.output in
      (adopted, record d { output = files })

  -- Both loops: that of `_ytdlp_all_formats`, and the trials at the end of `download`.
  unfoldable pub try_runs : List Run → List Text → Disk → Tried
  unfolding adopt run_ytdlp ytdlp_args classify add_line download_error
  try_runs [] log d = (ok none, log, d)
  try_runs (run ∷ runs) log d =
      let (ran, started) = start_ytdlp run d in
      let (adopted, d') = adopt_on started in after_run run ran adopted log d' (try_runs runs)

-- One trial: every format
unfoldable pub runs_of : Text → Text → Text → List Run
unfolding formats
runs_of jar proxy label = map (λ fmt. (jar, proxy, label, fmt)) formats

abbrev pub cookie_runs : Text → Text → Text → List Run
cookie_runs [] proxy label = []
cookie_runs (c ∷ jar) proxy label = runs_of (c ∷ jar) proxy label

abbrev proxy_runs : Text → Text → List Run
proxy_runs cookies [] = []
proxy_runs cookies (c ∷ proxy) =
    runs_of [] (c ∷ proxy) (codes "proxy")
    ++ cookie_runs cookies (c ∷ proxy) (codes "cookies+proxy")

-- The trials of `download`, format by format
unfoldable pub trial_runs : Text → Text → List Run
unfolding runs_of
trial_runs cookies proxy =
    runs_of [] [] (codes "plain")
    ++ cookie_runs cookies [] (codes "cookies")
    ++ proxy_runs cookies proxy
