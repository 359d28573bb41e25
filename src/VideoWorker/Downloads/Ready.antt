-- ===== src/VideoWorker/Downloads/Ready.antt =====
-- What the file is that `download` of video-worker/downloader.py returns.
use ai_trans_clips_tts.Prelude.{
  ℕ, ◌+◌, ◌<◌, ◌≡◌, refl, ap, subst, ◌⊎◌, inl, inr, Bool, true, false, ◌||◌, Option, none, some,
  List, [], ◌∷◌, ◌++◌, All, filter-All, leb, ◌==◌, nat_eq, list_eq, option_eq, arith, Bool-cases,
}
use ai_trans_clips_tts.Prelude.Dict.{get, some_injective}
use ai_trans_clips_tts.Prelude.Text.{Text, codes, starts_with}
use ai_trans_clips_tts.VideoWorker.Platforms.{UrlError, validate_url, platform_of}
use ai_trans_clips_tts.VideoWorker.Errors.{DownloadError}
use ai_trans_clips_tts.VideoWorker.Downloads.{
  World, Disk, File, Files, DownloadResult, Result, ok, invalid, raised, names, suffix,
  display_name,
}
use ai_trans_clips_tts.VideoWorker.Downloads.Trials.{Tried, adopt_on}
use ai_trans_clips_tts.VideoWorker.Downloads.Cached.{
  is_skipped, look_at, expired, cached_from, find_cached, listed, keep, save_to_cache,
}
use ai_trans_clips_tts.VideoWorker.Downloads.Tiers.{
  finish, general_error, last_tier, after_direct, try_direct, after_cached, after_resume,
  after_valid, download,
}
use ai_trans_clips_tts.VideoWorker.Downloads.Calls.{ok_injective}
use ai_trans_clips_tts.VideoWorker.Downloads.Found.{
  IsVideo, Finds, adopt_on-Finds, try_runs-Finds, try_direct-Finds,
}

kept_parts : (a : Bool) (n : ℕ) → (a || leb n 1024) ≡ false → (a ≡ false) × (1024 < n)
kept_parts a n h = (ground (arith, h), ground (arith, h))

module _ (w : World) (now : ℕ) (url job_id : Text) where
  -- What `_find_cached` returns: a file of the URL in the cache that is large and new enough.
  abbrev pub IsCached : DownloadResult → Files → Type 0
  IsCached r cache =
      (r.from_cache ≡ true)
      × ((file : File) × (get cache r.path ≡ some file)
          × (1024 < file.size)
          × (now < file.mtime + w.cache_ttl))
      × (starts_with (w.url_hash url ++ codes ".") r.path ≡ true)
      × ((suffix r.path == codes ".name") ≡ false)

  abbrev pub Hits : Option DownloadResult × Disk → Type 0
  Hits t = (r : DownloadResult) → t.0 ≡ some r → IsCached r t.1.cache

  look_at-Hits :
      (name : Text) (o : Option File) (d : Disk) (skip expire : Option DownloadResult × Disk)
      → starts_with (w.url_hash url ++ codes ".") name ≡ true
      → get d.cache name ≡ o
      → Hits skip
      → Hits expire
      → Hits (look_at w now url name o d skip expire)
  look_at-Hits name none d skip expire of_url found s e = s
  look_at-Hits name (some file) d skip expire of_url found s e =
      elim (Bool-cases (is_skipped w now url name file)) [
        | inl skipped ↦ rw skipped s
        | inr kept ↦ elim (Bool-cases (leb (file.mtime + w.cache_ttl) now)) [
          | inl late ↦ rw (kept, late) e
          | inr fresh ↦
              rw (kept, fresh)
                λ r h.
                  let (no_name, big) = kept_parts (suffix name == codes ".name") file.size kept in
                  subst (λ x. IsCached x d.cache) (some_injective h)
                    (refl, (file, found, big, ground (arith, fresh)), of_url, no_name)
        ]
      ]

  cached_from-Hits :
      (names : List Text) (d : Disk)
      → All (λ name. starts_with (w.url_hash url ++ codes ".") name ≡ true) names
      → Hits (cached_from w now url names d)
  unfolding cached_from
  cached_from-Hits [] d of_url = λ r h. absurd (cc h)
  cached_from-Hits (name ∷ rest) d of_url =
      look_at-Hits name (get d.cache name) d _ _ of_url.0 refl (cached_from-Hits rest d of_url.1)
        (cached_from-Hits rest (expired w now url name d) of_url.1)

  pub find_cached-Hits : (d : Disk) → Hits (find_cached w now url d)
  unfolding find_cached
  find_cached-Hits d = cached_from-Hits (listed w now url d.cache) d (filter-All _ (names d.cache))

  -- The answer of `download`: a video of the job, or a file of the cache.
  abbrev pub IsReady : DownloadResult → Disk → Type 0
  IsReady r d =
      (r.from_cache ≡ false)
        × (r.filename ≡ display_name r.path)
        × IsVideo w.max_bytes job_id d.output r.path
      ⊎ IsCached r d.cache

  abbrev Answers : Result DownloadResult × Disk → Type 0
  Answers t = (r : DownloadResult) → t.0 ≡ ok r → IsReady r t.1

  keep-Answers :
      (path : Text) (d : Disk)
      → IsVideo w.max_bytes job_id d.output path
      → Answers (keep w now url path d)
  unfolding keep save_to_cache
  keep-Answers path d video r h =
      subst (λ x. IsReady x (save_to_cache w now url path (display_name path) d)) (ok_injective h)
        (inl (refl, refl, video))

  finish-Answers :
      (error : List Text → DownloadError) (t : Tried)
      → Finds w job_id t.0 t.2
      → Answers (finish w now url job_id error t)
  finish-Answers error (raised e, log, d) finds = λ r h. absurd (cc h)
  finish-Answers error (invalid e, log, d) finds = λ r h. absurd (cc h)
  finish-Answers error (ok (some path), log, d) finds = keep-Answers path d (finds path refl)
  finish-Answers error (ok none, log, d) finds = λ r h. absurd (cc h)

  last_tier-Answers :
      (d : Disk)
      → (platform_of w.platforms (w.urlparse url) == some (codes "douyin")) ≡ false
      → Answers (last_tier w now url job_id d)
  last_tier-Answers d other =
      rw other (finish-Answers general_error _ (try_runs-Finds w now url job_id _ [] d))

  module _
      (other : (platform_of w.platforms (w.urlparse url) == some (codes "douyin")) ≡ false) where
    after_direct-Answers :
        (t : Result (Option Text) × Disk)
        → Finds w job_id t.0 t.1
        → Answers (after_direct w now url job_id t)
    after_direct-Answers (raised e, d) finds = λ r h. absurd (cc h)
    after_direct-Answers (invalid e, d) finds = λ r h. absurd (cc h)
    after_direct-Answers (ok (some path), d) finds = keep-Answers path d (finds path refl)
    after_direct-Answers (ok none, d) finds = last_tier-Answers d other

    after_cached-Answers :
        (t : Option DownloadResult × Disk) → Hits t → Answers (after_cached w now url job_id t)
    after_cached-Answers (some r, d) hits = λ r' h. inr (hits r' (ap some (ok_injective h)))
    after_cached-Answers (none, d) hits =
        after_direct-Answers (try_direct w now url job_id d) (try_direct-Finds w now url job_id d)

    after_resume-Answers :
        (t : Result (Option Text) × Disk)
        → Finds w job_id t.0 t.1
        → Answers (after_resume w now url job_id t)
    after_resume-Answers (raised e, d) finds = λ r h. absurd (cc h)
    after_resume-Answers (invalid e, d) finds = λ r h. absurd (cc h)
    after_resume-Answers (ok (some path), d) finds =
        λ r h. subst (λ x. IsReady x d) (ok_injective h) (inl (refl, refl, finds path refl))
    after_resume-Answers (ok none, d) finds =
        after_cached-Answers (find_cached w now url d) (find_cached-Hits d)

    after_valid-Answers :
        (o : Option UrlError) (d : Disk) → Answers (after_valid w now url job_id o d)
    after_valid-Answers (some e) d = λ r h. absurd (cc h)
    after_valid-Answers none d =
        after_resume-Answers (adopt_on w url job_id d) (adopt_on-Finds w now url job_id d)

-- What download returns for a platform other than Douyin is, in the output directory, a file of the
-- job with more than 1024 bytes and no more than MAX_BYTES, under its display name, or, in the cache, a
-- file of the URL with more than 1024 bytes that is younger than the time to live and is no name file.
pub download-IsReady :
    (w : World) (now : ℕ) (url job_id : Text) (d : Disk) (r : DownloadResult)
    → (platform_of w.platforms (w.urlparse url) == some (codes "douyin")) ≡ false
    → (download w now url job_id d).0 ≡ ok r
    → IsReady w now url job_id r (download w now url job_id d).1
unfolding download
download-IsReady w now url job_id d r other h =
    after_valid-Answers w now url job_id other (validate_url w.network w.platforms (w.urlparse url))
      d r h
