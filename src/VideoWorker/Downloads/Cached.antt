-- ===== src/VideoWorker/Downloads/Cached.antt =====
-- The cache of video-worker/downloader.py: one file for a URL, with its name beside it.
use ai_trans_clips_tts.Prelude.{
  ℕ, ◌+◌, Bool, true, false, ◌||◌, Option, none, some, List, [], ◌∷◌, ◌++◌, if◌then◌else◌, leb,
  length, filter, ◌==◌, nat_eq, list_eq, option_eq,
}
use ai_trans_clips_tts.Prelude.Dict.{get, put, pop}
use ai_trans_clips_tts.Prelude.Text.{Text, codes, strip, starts_with}
use ai_trans_clips_tts.VideoWorker.Downloads.{
  World, Disk, File, Files, DownloadResult, Result, ok, names, or_text, suffix, display_name,
}

abbrev pub name_file : Text → Text
name_file h = h ++ codes ".name"

abbrev read_name : Text → Option File → Text
read_name name none = name
read_name name (some file) = or_text (strip file.text) name

-- `name_file.read_text(...).strip() if name_file.is_file() else p.name`, or the name of the file
abbrev pub filename_for : Text → Text → Files → Text
filename_for h name cache = read_name name (get cache (name_file h))

module _ (w : World) (now : ℕ) (url : Text) where
  abbrev pub is_skipped : Text → File → Bool
  is_skipped name file = suffix name == codes ".name" || leb file.size 1024

  -- The body of the loop of `_find_cached`, on a file; one that is gone is none. `skip` and `expire`
  -- are its two `continue`s.
  abbrev pub look_at :
      Text
      → Option File
      → Disk
      → Option DownloadResult × Disk
      → Option DownloadResult × Disk
      → Option DownloadResult × Disk
  look_at name none d skip expire = skip
  look_at name (some file) d skip expire =
      if is_skipped name file
      then skip
      else if leb (file.mtime + w.cache_ttl) now
      then expire
      else (
        some (record {
          path = name;
          filename = filename_for (w.url_hash url) name d.cache;
          from_cache = true;
        }),
        d,
      )

  abbrev pub expired : Text → Disk → Disk
  expired name d = record d { cache = pop (pop d.cache name) (name_file (w.url_hash url)) }

  -- The loop, over what the glob lists
  unfoldable pub cached_from : List Text → Disk → Option DownloadResult × Disk
  unfolding suffix strip
  cached_from [] d = (none, d)
  cached_from (name ∷ rest) d =
      look_at name (get d.cache name) d (cached_from rest d) (cached_from rest (expired name d))

  -- What `CACHE_DIR.glob(f"{h}.*")` lists
  abbrev pub listed : Files → List Text
  listed cache = filter (starts_with (w.url_hash url ++ codes ".")) (names cache)

  -- `_find_cached`
  unfoldable pub find_cached : Disk → Option DownloadResult × Disk
  unfolding cached_from starts_with
  find_cached d = cached_from (listed d.cache) d

  -- `f"{h}{src.suffix or '.mp4'}"`
  abbrev pub cache_name : Text → Text
  cache_name src = w.url_hash url ++ or_text (suffix src) (codes ".mp4")

  -- `shutil.copy2` keeps the time of the file.
  abbrev pub copied : Text → Text → Option File → Files → Files
  copied src filename none cache = cache
  copied src filename (some file) cache =
      put (put cache (cache_name src) file) (name_file (w.url_hash url))
        (record { size = length filename; mtime = now; text = filename })

  -- `_save_to_cache`
  unfoldable pub save_to_cache : Text → Text → Disk → Disk
  unfolding suffix
  save_to_cache src filename d = record d { cache = copied src filename (get d.output src) d.cache }

  -- The end of `download` with a new file
  unfoldable pub keep : Text → Disk → Result DownloadResult × Disk
  unfolding display_name save_to_cache
  keep path d = (
    ok (record { path = path; filename = display_name path; from_cache = false }),
    save_to_cache path (display_name path) d,
  )
