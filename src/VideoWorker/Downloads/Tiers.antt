-- ===== src/VideoWorker/Downloads/Tiers.antt =====
-- `download` of video-worker/downloader.py, with the tiers that it tries one after the other: the file
-- of an earlier call, the cache, the file behind a direct link, the tools for Douyin, and yt-dlp.
use ai_trans_clips_tts.Prelude.{
  ℕ, Bool, true, false, ◌&&◌, Option, none, some, List, [], ◌∷◌, ◌++◌, if◌then◌else◌, ltb, any,
  ◌==◌, nat_eq, list_eq, option_eq,
}
use ai_trans_clips_tts.Prelude.Int.{ℤ, pos, negsuc}
use ai_trans_clips_tts.Prelude.Dict.{get, put, pop}
use ai_trans_clips_tts.Prelude.Text.{Text, codes, lower, split, is_digit, parse_int}
use ai_trans_clips_tts.VideoWorker.Platforms.{UrlError, validate_url, platform_of, ends_with}
use ai_trans_clips_tts.VideoWorker.Errors.{DownloadError, download_error, classify}
use ai_trans_clips_tts.VideoWorker.Downloads.{
  World, Disk, File, Files, Fetched, refused, answered, Tool, DownloadResult, Result, ok, invalid,
  raised, direct_extensions, adopt, check_size, or_text, display_name,
}
use ai_trans_clips_tts.VideoWorker.Downloads.Cached.{find_cached, keep}
use ai_trans_clips_tts.VideoWorker.Downloads.Trials.{
  Run, Tried, adopt_on, try_runs, trial_runs, cookie_runs, last_of,
}

abbrev head_of : List Text → Text
head_of [] = []
head_of (part ∷ parts) = part

-- `url.split("?")[0]`
abbrev without_query : Text → Text
without_query url = head_of (split 63 url)

-- `_is_direct_media`
unfoldable pub is_direct_media : Text → Bool
unfolding split lower ends_with direct_extensions
is_direct_media url = any (λ ext. ends_with ext (lower (without_query url))) direct_extensions

-- `s.rsplit(sep, 1)[-1]`
abbrev last_part : List Text → Text
last_part [] = []
last_part (part ∷ []) = part
last_part (part ∷ next ∷ parts) = last_part (next ∷ parts)

unfoldable pub direct_ext : Text → Text
unfolding split
direct_ext name =
    if any (λ c. c == 46) name then codes "." ++ last_part (split 46 name) else codes ".mp4"

unfoldable pub direct_name : Text → Text → Text
unfolding direct_ext
direct_name url job_id =
    job_id ++ codes "_direct" ++ direct_ext (last_part (split 47 (without_query url)))

abbrev exceeds : ℕ → Option ℤ → Bool
exceeds max_bytes none = false
exceeds max_bytes (some (negsuc n)) = false
exceeds max_bytes (some (pos n)) = ltb max_bytes n

abbrev all_digits : Text → Bool
all_digits [] = true
all_digits (c ∷ s) = is_digit c && all_digits s

-- `length and length.isdigit() and int(length) > MAX_BYTES`
unfoldable pub is_too_long : ℕ → Option Text → Bool
unfolding parse_int
is_too_long max_bytes none = false
is_too_long max_bytes (some length') = all_digits length' && exceeds max_bytes (parse_int length')

-- `dest if dest.stat().st_size > 1024 else None`
abbrev pub if_filled : Text → Option File → Option Text
if_filled dest none = none
if_filled dest (some file) = if ltb 1024 file.size then some dest else none

-- A file that is written: its size is looked at.
abbrev pub checked : Text → Bool × Files → Disk → Result (Option Text) × Disk
checked dest (true, files) d =
    (raised (download_error (codes "TOO_LARGE") []), record d { output = files })
checked dest (false, files) d = (ok (if_filled dest (get files dest)), record d { output = files })

abbrev pub after_fetch : ℕ → Text → Fetched → Disk → Result (Option Text) × Disk
after_fetch max_bytes dest refused d = (ok none, record d { output = pop d.output dest })
after_fetch max_bytes dest (answered content_length none) d =
    if is_too_long max_bytes content_length
    then (raised (download_error (codes "TOO_LARGE") []), d)
    else (ok none, record d { output = pop d.output dest })
after_fetch max_bytes dest (answered content_length (some file)) d =
    if is_too_long max_bytes content_length
    then (raised (download_error (codes "TOO_LARGE") []), d)
    else checked dest (check_size max_bytes dest (put d.output dest file)) d

module _ (w : World) (url job_id : Text) where
  -- `_download_direct`
  unfoldable pub download_direct : Disk → Result (Option Text) × Disk
  unfolding is_too_long direct_name check_size download_error
  download_direct d = after_fetch w.max_bytes (direct_name url job_id) (w.fetch url) d

  -- The tools for Douyin, each with its jar; one without a jar is passed over.
  unfoldable pub try_tools : Text → List (Tool × Text) → Files → Bool × Files
  try_tools dest [] files = (false, files)
  try_tools dest ((tool, []) ∷ tools) files = try_tools dest tools files
  try_tools dest ((tool, c ∷ jar) ∷ tools) files =
      let (done, files') = tool (w.canonical_url url) dest (c ∷ jar) files in
      let later = try_tools dest tools files' in if done then (true, files') else later

  abbrev jars : List (Tool × Text)
  jars =
      (w.douyin_downloader, w.logged_in)
      ∷ (w.douyin_downloader, w.cookie_file_for (codes "douyin"))
      ∷ (w.f2, w.logged_in)
      ∷ (w.f2, w.cookie_file_for (codes "douyin"))
      ∷ []

  unfoldable pub use_tools : Text → Files → Bool × Files
  unfolding try_tools
  use_tools dest files =
      let (done, files') = w.apifree (w.canonical_url url) dest files in
      let later = try_tools dest jars files' in if done then (true, files') else later

  -- The runs of yt-dlp for Douyin. What the refresh between them returns is not used.
  unfoldable pub douyin_runs : List Run
  douyin_runs =
      let jar = or_text (w.cookie_file_for (codes "douyin")) w.refreshed in
      cookie_runs jar w.douyin_proxy (codes "douyin-ytdlp")
      ++ cookie_runs jar w.douyin_proxy (codes "douyin-ytdlp-refresh")

  abbrev pub douyin_dest : Text
  douyin_dest = job_id ++ codes "_douyin.mp4"

  abbrev pub or_runs : Bool × Files → Disk → Tried
  or_runs (true, files) d = (ok (some douyin_dest), [], record d { output = files })
  or_runs (false, files) d =
      try_runs w (w.canonical_url url) job_id douyin_runs [] (record d { output = files })

  -- `_download_douyin`, with `stderr_log`
  unfoldable pub download_douyin : Disk → Tried
  unfolding use_tools douyin_runs try_runs
  download_douyin d = or_runs (use_tools douyin_dest d.output) d

-- The platform; a URL that is valid has one.
abbrev pub platform_text : Option Text → Text
platform_text none = []
platform_text (some platform) = platform

-- The errors at the end of `download`
unfoldable pub join : Text → List Text → Text
join sep [] = []
join sep (line ∷ []) = line
join sep (line ∷ next ∷ log) = line ++ sep ++ join sep (next ∷ log)

unfoldable pub douyin_error : List Text → DownloadError
unfolding join last_of download_error
douyin_error log = download_error (codes "GEO_BLOCKED") (last_of 1000 (join (codes "; ") log))

unfoldable pub general_error : List Text → DownloadError
unfolding join last_of download_error classify
general_error log =
    download_error (classify (join (codes "\n") log)) (last_of 2000 (join (codes "\n") log))

module _ (w : World) (now : ℕ) (url job_id : Text) where
  abbrev pub finish : (List Text → DownloadError) → Tried → Result DownloadResult × Disk
  finish error (raised e, log, d) = (raised e, d)
  finish error (invalid e, log, d) = (invalid e, d)
  finish error (ok (some path), log, d) = keep w now url path d
  finish error (ok none, log, d) = (raised (error log), d)

  abbrev pub last_tier : Disk → Result DownloadResult × Disk
  last_tier d =
      if platform_of w.platforms (w.urlparse url) == some (codes "douyin")
      then finish douyin_error (download_douyin w url job_id d)
      else finish general_error (
          try_runs w url job_id
            (trial_runs
              (w.cookie_file_for (platform_text (platform_of w.platforms (w.urlparse url))))
              w.yt_dlp_proxy)
            [] d)

  abbrev pub after_direct : Result (Option Text) × Disk → Result DownloadResult × Disk
  after_direct (raised e, d) = (raised e, d)
  after_direct (invalid e, d) = (invalid e, d)
  after_direct (ok (some path), d) = keep w now url path d
  after_direct (ok none, d) = last_tier d

  abbrev pub try_direct : Disk → Result (Option Text) × Disk
  try_direct d = if is_direct_media url then download_direct w url job_id d else (ok none, d)

  abbrev pub after_cached : Option DownloadResult × Disk → Result DownloadResult × Disk
  after_cached (some r, d) = (ok r, d)
  after_cached (none, d) = after_direct (try_direct d)

  abbrev pub after_resume : Result (Option Text) × Disk → Result DownloadResult × Disk
  after_resume (raised e, d) = (raised e, d)
  after_resume (invalid e, d) = (invalid e, d)
  after_resume (ok (some path), d) =
      (ok (record { path = path; filename = display_name path; from_cache = false }), d)
  after_resume (ok none, d) = after_cached (find_cached w now url d)

  abbrev pub after_valid : Option UrlError → Disk → Result DownloadResult × Disk
  after_valid (some e) d = (invalid e, d)
  after_valid none d = after_resume (adopt_on w url job_id d)

  -- `download`
  unfoldable pub download : Disk → Result DownloadResult × Disk
  unfolding validate_url adopt find_cached is_direct_media download_direct download_douyin
      platform_of trial_runs try_runs keep douyin_error general_error display_name
  download d = after_valid (validate_url w.network w.platforms (w.urlparse url)) d
