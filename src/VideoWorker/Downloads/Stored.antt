-- ===== src/VideoWorker/Downloads/Stored.antt =====
-- What video-worker/downloader.py writes to its cache.
use ai_trans_clips_tts.Prelude.{
  ℕ, ◌≡◌, refl, subst, inl, inr, Bool, true, false, Option, none, some, List, [], ◌∷◌, ◌==◌, nat_eq,
  list_eq, option_eq, Bool-cases,
}
use ai_trans_clips_tts.Prelude.Dict.{get}
use ai_trans_clips_tts.Prelude.Text.{Text, codes}
use ai_trans_clips_tts.VideoWorker.Platforms.{platform_of}
use ai_trans_clips_tts.VideoWorker.Errors.{DownloadError}
use ai_trans_clips_tts.VideoWorker.Downloads.{
  World, Disk, Files, Fetched, refused, answered, DownloadResult, Result, ok, invalid, raised,
  display_name,
}
use ai_trans_clips_tts.VideoWorker.Downloads.Trials.{
  Run, Tried, adopt_on, start_ytdlp, try_runs, trial_runs,
}
use ai_trans_clips_tts.VideoWorker.Downloads.Cached.{keep, save_to_cache, copied}
use ai_trans_clips_tts.VideoWorker.Downloads.Tiers.{
  is_direct_media, direct_name, is_too_long, platform_text, douyin_dest, download_direct, checked,
  after_fetch, or_runs, download_douyin, use_tools, douyin_runs, douyin_error, general_error,
  finish, last_tier, after_direct, try_direct,
}
use ai_trans_clips_tts.VideoWorker.Downloads.Calls.{after_run_ends, ok_injective}

module _ (w : World) (url job_id : Text) where
  try_runs-cache :
      (runs : List Run) (log : List Text) (d : Disk)
      → (try_runs w url job_id runs log d).2.cache ≡ d.cache
  unfolding try_runs
  try_runs-cache [] log d = refl
  try_runs-cache (run ∷ runs) log d =
      let (ran, started) = start_ytdlp w url job_id run d in
      let (adopted, d') = adopt_on w url job_id started in
      after_run_ends (λ t. t.2.cache ≡ d.cache) run ran adopted log d' (try_runs w url job_id runs)
        (λ e. refl) (λ e. refl) (λ path found. refl) (λ log'. try_runs-cache runs log' d')

module _ (w : World) (now : ℕ) (url job_id : Text) where
  or_runs-cache :
      (tools : Bool × Files) (d : Disk) → (or_runs w url job_id tools d).2.cache ≡ d.cache
  or_runs-cache (true, files) d = refl
  or_runs-cache (false, files) d =
      try_runs-cache w (w.canonical_url url) job_id (douyin_runs w url job_id) []
        (record d { output = files })

  download_douyin-cache : (d : Disk) → (download_douyin w url job_id d).2.cache ≡ d.cache
  unfolding download_douyin
  download_douyin-cache d =
      or_runs-cache (use_tools w url job_id (douyin_dest w url job_id) d.output) d

  -- An answer whose file has gone to the cache, which was `c`.
  abbrev pub IsStored : Files → Result DownloadResult × Disk → Type 0
  IsStored c t =
      (r : DownloadResult)
      → t.0 ≡ ok r
      → (r.filename ≡ display_name r.path)
        × (t.1.cache ≡ copied w now url r.path (display_name r.path) (get t.1.output r.path) c)

  keep-IsStored : (path : Text) (d : Disk) → IsStored d.cache (keep w now url path d)
  unfolding keep save_to_cache
  keep-IsStored path d r h =
      let kept = save_to_cache w now url path (display_name path) d in
      subst
        (λ x.
          (x.filename ≡ display_name x.path)
          × (kept.cache
              ≡ copied w now url x.path (display_name x.path) (get d.output x.path) d.cache))
        (ok_injective h) (refl, refl)

  finish-IsStored :
      (error : List Text → DownloadError) (c : Files) (t : Tried)
      → t.2.cache ≡ c
      → IsStored c (finish w now url job_id error t)
  finish-IsStored error c (raised e, log, d) same = λ r h. absurd (cc h)
  finish-IsStored error c (invalid e, log, d) same = λ r h. absurd (cc h)
  finish-IsStored error c (ok (some path), log, d) same =
      subst (λ c. IsStored c (keep w now url path d)) same (keep-IsStored path d)
  finish-IsStored error c (ok none, log, d) same = λ r h. absurd (cc h)

  last_tier-IsStored : (d : Disk) → IsStored d.cache (last_tier w now url job_id d)
  last_tier-IsStored d =
      let platform = platform_of w.platforms (w.urlparse url) in
      elim (Bool-cases (platform == some (codes "douyin"))) [
        | inl douyin ↦ rw douyin (
            finish-IsStored douyin_error d.cache (download_douyin w url job_id d)
              (download_douyin-cache d))
        | inr other ↦ rw other (
            finish-IsStored general_error d.cache _ (
              try_runs-cache w url job_id
                (trial_runs (w.cookie_file_for (platform_text platform)) w.yt_dlp_proxy) [] d))
      ]

  checked-cache : (dest : Text) (c : Bool × Files) (d : Disk) → (checked dest c d).1.cache ≡ d.cache
  checked-cache dest (true, files) d = refl
  checked-cache dest (false, files) d = refl

  after_fetch-cache :
      (dest : Text) (f : Fetched) (d : Disk) → (after_fetch w.max_bytes dest f d).1.cache ≡ d.cache
  after_fetch-cache dest refused d = refl
  after_fetch-cache dest (answered content_length none) d =
      elim (Bool-cases (is_too_long w.max_bytes content_length)) [
        | inl long ↦ rw long refl
        | inr short ↦ rw short refl
      ]
  after_fetch-cache dest (answered content_length (some file)) d =
      elim (Bool-cases (is_too_long w.max_bytes content_length)) [
        | inl long ↦ rw long refl
        | inr short ↦ rw short (checked-cache dest _ d)
      ]

  try_direct-cache : (d : Disk) → (try_direct w now url job_id d).1.cache ≡ d.cache
  unfolding download_direct
  try_direct-cache d = elim (Bool-cases (is_direct_media url)) [
    | inr other ↦ rw other refl
    | inl direct ↦ rw direct (after_fetch-cache (direct_name url job_id) (w.fetch url) d)
  ]

  after_direct-IsStored :
      (c : Files) (t : Result (Option Text) × Disk)
      → t.1.cache ≡ c
      → IsStored c (after_direct w now url job_id t)
  after_direct-IsStored c (raised e, d) same = λ r h. absurd (cc h)
  after_direct-IsStored c (invalid e, d) same = λ r h. absurd (cc h)
  after_direct-IsStored c (ok (some path), d) same =
      subst (λ c. IsStored c (keep w now url path d)) same (keep-IsStored path d)
  after_direct-IsStored c (ok none, d) same =
      subst (λ c. IsStored c (last_tier w now url job_id d)) same (last_tier-IsStored d)

  -- A file that no earlier call has left, and that the cache did not have, goes to the cache.
  pub try_direct-IsStored :
      (d : Disk) → IsStored d.cache (after_direct w now url job_id (try_direct w now url job_id d))
  try_direct-IsStored d =
      after_direct-IsStored d.cache (try_direct w now url job_id d) (try_direct-cache d)
