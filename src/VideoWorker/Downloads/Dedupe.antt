-- ===== src/VideoWorker/Downloads/Dedupe.antt =====
-- How the cache of video-worker/downloader.py serves a URL again.
use ai_trans_clips_tts.Prelude.{
  ℕ, ◌+◌, ◌<◌, ◌≡◌, refl, ap, subst, inl, inr, sym, ◌∙◌, true, false, Option, none, some, [], ◌==◌,
  nat_eq, list_eq, option_eq, Option-cases,
}
use mathlib.Core.Bool.{true≢false}
use ai_trans_clips_tts.Prelude.Dict.{get}
use ai_trans_clips_tts.Prelude.Text.{Text, codes, strip}
use ai_trans_clips_tts.VideoWorker.Platforms.{validate_url}
use ai_trans_clips_tts.VideoWorker.Downloads.{
  World, Disk, File, DownloadResult, ok, invalid, adopt, existing, suffix, display_name, or_text,
}
use ai_trans_clips_tts.VideoWorker.Downloads.Trials.{adopt_on}
use ai_trans_clips_tts.VideoWorker.Downloads.Cached.{
  is_skipped, find_cached, name_file, cache_name, copied,
}
use ai_trans_clips_tts.VideoWorker.Downloads.Tiers.{after_cached, download}
use ai_trans_clips_tts.VideoWorker.Downloads.Calls.{ok_injective}
use ai_trans_clips_tts.VideoWorker.Downloads.Ready.{Hits, find_cached-Hits}
use ai_trans_clips_tts.VideoWorker.Downloads.Stored.{try_direct-IsStored}
use ai_trans_clips_tts.VideoWorker.Downloads.Glob.{find_cached-IsMiss}
use ai_trans_clips_tts.VideoWorker.Downloads.Copied.{find_cached-hit}

-- A job that has left no file goes on to the cache.
adopt_on-none :
    (w : World) (url job_id : Text) (d : Disk)
    → existing job_id d.output ≡ []
    → adopt_on w url job_id d ≡ (ok none, d)
unfolding adopt
adopt_on-none w url job_id d h = rw h refl

-- The answer of a first download: the cache did not have it, and the new file has gone there.
after_cached-IsStored :
    (w : World) (now : ℕ) (url job_id : Text) (t : Option DownloadResult × Disk)
    (r : DownloadResult)
    → Hits w now url job_id t
    → (after_cached w now url job_id t).0 ≡ ok r
    → r.from_cache ≡ false
    → (t.0 ≡ none)
      × (r.filename ≡ display_name r.path)
      × ((after_cached w now url job_id t).1.cache
          ≡ copied w now url r.path
              (display_name r.path)
              (get (after_cached w now url job_id t).1.output r.path)
              t.1.cache)
after_cached-IsStored w now url job_id (some r', d) r hits h new =
    let yes : r.from_cache ≡ true = (hits r (ap some (ok_injective h))).0 in
    absurd (true≢false (sym yes ∙ new))
after_cached-IsStored w now url job_id (none, d) r hits h new =
    let (name, stored) = try_direct-IsStored w now url job_id d r h in (refl, name, stored)

-- The first download of a job that has left no file, when the URL is valid.
download-first :
    (w : World) (now : ℕ) (url job_id : Text) (d : Disk)
    → existing job_id d.output ≡ []
    → validate_url w.network w.platforms (w.urlparse url) ≡ none
    → download w now url job_id d ≡ after_cached w now url job_id (find_cached w now url d)
unfolding download
download-first w now url job_id d no_file valid =
    rw valid (rw (adopt_on-none w url job_id d no_file) refl)

ok-valid :
    (w : World) (now : ℕ) (url job_id : Text) (d : Disk) (r : DownloadResult)
    → (download w now url job_id d).0 ≡ ok r
    → validate_url w.network w.platforms (w.urlparse url) ≡ none
unfolding download
ok-valid w now url job_id d r h =
    elim (Option-cases (validate_url w.network w.platforms (w.urlparse url))) [
      | inl valid ↦ valid
      | inr (e, refused) ↦ let no : invalid e ≡ ok r = rw refused at h in absurd (cc no)
    ]

-- A new file serves its URL again: after a download that has returned a new file, for a job that had
-- left none, a download of the same URL for another job that has left none returns the copy in the
-- cache, under the display name without white space round it, and changes nothing. It does so while the
-- time of the file, which the copy keeps, is within the time to live, when it has more than 1024 bytes
-- and its suffix is not `.name`, and that of the name file is.
pub download_dedupe :
    (w : World) (now later : ℕ) (url job_id next_id : Text) (d : Disk) (r : DownloadResult)
    (file : File)
    → existing job_id d.output ≡ []
    → (download w now url job_id d).0 ≡ ok r
    → r.from_cache ≡ false
    → get (download w now url job_id d).1.output r.path ≡ some file
    → (suffix (name_file (w.url_hash url)) == codes ".name") ≡ true
    → is_skipped w later url (cache_name w now url r.path) file ≡ false
    → later < file.mtime + w.cache_ttl
    → existing next_id (download w now url job_id d).1.output ≡ []
    → download w later url next_id (download w now url job_id d).1 ≡ (
      ok (record {
        path = cache_name w now url r.path;
        filename = or_text (strip (display_name r.path)) (cache_name w now url r.path);
        from_cache = true;
      }),
      (download w now url job_id d).1,
    )
download_dedupe w now later url job_id next_id d r file no_file done new found ok_name usable fresh
      no_file' =
    let valid = ok-valid w now url job_id d r done in
    let start = find_cached w now url d in
    let first = download-first w now url job_id d no_file valid in
    let (miss, name, stored) =
      after_cached-IsStored w now url job_id start r (find_cached-Hits w now url job_id d)
        (sym (ap (λ t. t.0) first) ∙ done) new in
    let d' = (download w now url job_id d).1 in
    let copy = λ (o : Option File). copied w now url r.path (display_name r.path) o start.1.cache in
    let kept =
      subst (λ t. t.1.cache ≡ copy (get t.1.output r.path)) (sym first) stored ∙ ap copy found in
    let cached =
      find_cached-hit w now url start.1.cache r.path (display_name r.path) file ok_name usable later
        d' (find_cached-IsMiss w now url d miss) fresh kept in
    download-first w later url next_id d' no_file' valid ∙ rw cached refl
