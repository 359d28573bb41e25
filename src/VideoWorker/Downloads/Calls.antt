-- ===== src/VideoWorker/Downloads/Calls.antt =====
-- How often video-worker/downloader.py runs yt-dlp.
use ai_trans_clips_tts.Prelude.{
  ℕ, suc, ◌+◌, ◌≤◌, ◌≡◌, refl, inl, inr, Bool, true, false, Option, none, some, List, [], ◌∷◌,
  length, ◌++◌, leb, ◌==◌, nat_eq, list_eq, option_eq, arith, Bool-cases,
}
use ai_trans_clips_tts.Prelude.Int.{ℤ}
use ai_trans_clips_tts.Prelude.Dict.{get}
use ai_trans_clips_tts.Prelude.Text.{Text, codes}
use ai_trans_clips_tts.VideoWorker.Platforms.{UrlError, validate_url, platform_of}
use ai_trans_clips_tts.VideoWorker.Errors.{DownloadError, classify}
use ai_trans_clips_tts.VideoWorker.Downloads.{
  World, Disk, File, Files, Fetched, refused, answered, DownloadResult, Result, ok, invalid, raised,
  formats, or_text,
}
use ai_trans_clips_tts.VideoWorker.Downloads.Trials.{
  Run, Tried, after_run, start_ytdlp, adopt_on, try_runs, trial_runs, cookie_runs, runs_of,
}
use ai_trans_clips_tts.VideoWorker.Downloads.Cached.{
  is_skipped, look_at, expired, cached_from, find_cached, listed, keep, save_to_cache,
}
use ai_trans_clips_tts.VideoWorker.Downloads.Tiers.{
  is_direct_media, direct_name, is_too_long, platform_text, douyin_dest, download_direct, checked,
  after_fetch, or_runs, download_douyin, use_tools, douyin_runs, finish, last_tier, after_direct,
  try_direct, after_cached, after_resume, after_valid, download,
}

pub ok_injective {ℓ} : {A : Type ℓ} {a b : A} → ok a ≡ ok b → a ≡ b
ok_injective h = cc

-- A round of the loop, by its four ends.
pub after_run_ends {κ} :
    (P : Tried → Type κ) (run : Run) (ran : ℤ × Text) (adopted : Result (Option Text))
    (log : List Text) (d : Disk) (rest : List Text → Disk → Tried)
    → ((e : DownloadError) → P (raised e, log, d))
    → ((e : UrlError) → P (invalid e, log, d))
    → ((path : Text) → adopted ≡ ok (some path) → P (ok (some path), log, d))
    → ((log' : List Text) → P (rest log' d))
    → P (after_run run ran adopted log d rest)
after_run_ends P run ran (raised e) log d rest f g h k = f e
after_run_ends P run ran (invalid e) log d rest f g h k = g e
after_run_ends P run ran (ok (some path)) log d rest f g h k = h path refl
after_run_ends P run (rc, err) (ok none) log d rest f g h k =
    elim (Bool-cases (classify err == codes "TOO_LARGE")) [
      | inl large ↦ rw large (f _)
      | inr other ↦ rw other (k _)
    ]

pub length-++ {ℓ} : {A : Type ℓ} (xs ys : List A) → length (xs ++ ys) ≡ length xs + length ys
length-++ [] ys = omega arith
length-++ (x ∷ xs) ys = omega (arith, length-++ xs ys)

module _ (w : World) (url job_id : Text) where
  pub try_runs_cost :
      (runs : List Run) (log : List Text) (d : Disk)
      → (try_runs w url job_id runs log d).2.calls ≤ d.calls + length runs
  unfolding try_runs
  try_runs_cost [] log d = omega arith
  try_runs_cost (run ∷ runs) log d =
      let (ran, started) = start_ytdlp w url job_id run d in
      let (adopted, d') = adopt_on w url job_id started in
      after_run_ends (λ t. t.2.calls ≤ d.calls + suc (length runs)) run ran adopted log d'
        (try_runs w url job_id runs) (λ e. omega arith) (λ e. omega arith)
        (λ path found. omega arith) (λ log'. omega (arith, try_runs_cost runs log' d'))

  -- The loops have at most this many runs.
  length-cookie_runs : (cookies proxy label : Text) → length (cookie_runs cookies proxy label) ≤ 4
  unfolding runs_of formats
  length-cookie_runs [] proxy label = omega arith
  length-cookie_runs (c ∷ cookies) proxy label = omega arith

  length-trial_runs : (cookies proxy : Text) → length (trial_runs cookies proxy) ≤ 16
  unfolding trial_runs runs_of formats
  length-trial_runs [] [] = omega arith
  length-trial_runs [] (c ∷ proxy) = omega arith
  length-trial_runs (c ∷ cookies) [] = omega arith
  length-trial_runs (c ∷ cookies) (d ∷ proxy) = omega arith

  length-douyin_runs : length (douyin_runs w url job_id) ≤ 16
  unfolding douyin_runs
  length-douyin_runs =
      let jar = or_text (w.cookie_file_for (codes "douyin")) w.refreshed in
      rw length-++ (
        omega (
          arith,
          length-cookie_runs jar w.douyin_proxy (codes "douyin-ytdlp"),
          length-cookie_runs jar w.douyin_proxy (codes "douyin-ytdlp-refresh"),
        ))

module _ (w : World) (now : ℕ) (url job_id : Text) where
  or_runs_cost :
      (tools : Bool × Files) (d : Disk) → (or_runs w url job_id tools d).2.calls ≤ d.calls + 16
  or_runs_cost (true, files) d = omega arith
  or_runs_cost (false, files) d = omega (
    arith,
    length-douyin_runs w url job_id,
    try_runs_cost w (w.canonical_url url) job_id (douyin_runs w url job_id) []
        (record d { output = files }),
  )

  download_douyin_cost : (d : Disk) → (download_douyin w url job_id d).2.calls ≤ d.calls + 16
  unfolding download_douyin
  download_douyin_cost d =
      or_runs_cost (use_tools w url job_id (douyin_dest w url job_id) d.output) d

  finish-calls :
      (error : List Text → DownloadError) (t : Tried)
      → (finish w now url job_id error t).1.calls ≡ t.2.calls
  unfolding keep save_to_cache
  finish-calls error (raised e, log, d) = refl
  finish-calls error (invalid e, log, d) = refl
  finish-calls error (ok (some path), log, d) = refl
  finish-calls error (ok none, log, d) = refl

  last_tier_cost : (d : Disk) → (last_tier w now url job_id d).1.calls ≤ d.calls + 16
  last_tier_cost d =
      let platform = platform_of w.platforms (w.urlparse url) in
      elim (Bool-cases (platform == some (codes "douyin"))) [
        | inl douyin ↦ rw (douyin, finish-calls) (download_douyin_cost d)
        | inr other ↦
            rw (other, finish-calls)
              (omega (
                arith,
                try_runs_cost w url job_id
                    (trial_runs (w.cookie_file_for (platform_text platform)) w.yt_dlp_proxy) [] d,
                length-trial_runs w url job_id (w.cookie_file_for (platform_text platform))
                    w.yt_dlp_proxy,
              ))
      ]

  checked-calls : (dest : Text) (c : Bool × Files) (d : Disk) → (checked dest c d).1.calls ≡ d.calls
  checked-calls dest (true, files) d = refl
  checked-calls dest (false, files) d = refl

  try_direct-calls : (d : Disk) → (try_direct w now url job_id d).1.calls ≡ d.calls
  unfolding download_direct
  try_direct-calls d = elim (Bool-cases (is_direct_media url)) [
    | inr other ↦ rw other refl
    | inl direct ↦ rw direct (fetched (w.fetch url))
  ]
    where
      fetched :
          (f : Fetched) → (after_fetch w.max_bytes (direct_name url job_id) f d).1.calls ≡ d.calls
      fetched refused = refl
      fetched (answered content_length none) =
          elim (Bool-cases (is_too_long w.max_bytes content_length)) [
            | inl long ↦ rw long refl
            | inr short ↦ rw short refl
          ]
      fetched (answered content_length (some file)) =
          elim (Bool-cases (is_too_long w.max_bytes content_length)) [
            | inl long ↦ rw long refl
            | inr short ↦ rw short (checked-calls (direct_name url job_id) _ d)
          ]

  after_direct_cost :
      (t : Result (Option Text) × Disk) → (after_direct w now url job_id t).1.calls ≤ t.1.calls + 16
  unfolding keep save_to_cache
  after_direct_cost (raised e, d) = omega arith
  after_direct_cost (invalid e, d) = omega arith
  after_direct_cost (ok (some path), d) = omega arith
  after_direct_cost (ok none, d) = last_tier_cost d

  look_at-calls :
      (n : ℕ) (name : Text) (o : Option File) (d : Disk)
      (skip expire : Option DownloadResult × Disk)
      → d.calls ≡ n
      → skip.1.calls ≡ n
      → expire.1.calls ≡ n
      → (look_at w now url name o d skip expire).1.calls ≡ n
  look_at-calls n name none d skip expire here s e = s
  look_at-calls n name (some file) d skip expire here s e =
      elim (Bool-cases (is_skipped w now url name file)) [
        | inl skipped ↦ rw skipped s
        | inr kept ↦ rw kept (elim (Bool-cases (leb (file.mtime + w.cache_ttl) now)) [
          | inl late ↦ rw late e
          | inr fresh ↦ rw fresh here
        ])
      ]

  cached_from-calls :
      (names : List Text) (d : Disk) → (cached_from w now url names d).1.calls ≡ d.calls
  unfolding cached_from
  cached_from-calls [] d = refl
  cached_from-calls (name ∷ rest) d =
      look_at-calls d.calls name (get d.cache name) d _ _ refl (cached_from-calls rest d)
        (cached_from-calls rest (expired w now url name d))

  after_cached_cost :
      (t : Option DownloadResult × Disk)
      → (after_cached w now url job_id t).1.calls ≤ t.1.calls + 16
  after_cached_cost (some r, d) = omega arith
  after_cached_cost (none, d) =
      omega (arith, after_direct_cost (try_direct w now url job_id d), try_direct-calls d)

  after_resume_cost :
      (t : Result (Option Text) × Disk) → (after_resume w now url job_id t).1.calls ≤ t.1.calls + 16
  unfolding find_cached
  after_resume_cost (raised e, d) = omega arith
  after_resume_cost (invalid e, d) = omega arith
  after_resume_cost (ok (some path), d) = omega arith
  after_resume_cost (ok none, d) = omega (
    arith,
    after_cached_cost (find_cached w now url d),
    cached_from-calls (listed w now url d.cache) d,
  )

  after_valid_cost :
      (o : Option UrlError) (d : Disk) → (after_valid w now url job_id o d).1.calls ≤ d.calls + 16
  after_valid_cost (some e) d = omega arith
  after_valid_cost none d = after_resume_cost (adopt_on w url job_id d)

-- One download runs yt-dlp at most sixteen times, whatever the tools, the server and yt-dlp do.
pub download_bound :
    (w : World) (now : ℕ) (url job_id : Text) (d : Disk)
    → (download w now url job_id d).1.calls ≤ d.calls + 16
unfolding download
download_bound w now url job_id d =
    after_valid_cost w now url job_id (validate_url w.network w.platforms (w.urlparse url)) d
