-- ===== src/VideoWorker/Downloads.antt =====
-- video-worker/downloader.py: how a video is downloaded. The output directory and the cache directory
-- are dictionaries from file names. yt-dlp, the HTTP client, the tools for Douyin and the cookie jars
-- are parameters. Log lines, the times of a download, and job ids with characters that a glob reads
-- are left out; a copy to the cache does not fail.
pub mod Trials
pub mod Cached
pub mod Tiers
pub mod Found
pub mod Ready
pub mod Calls
pub mod Stored
pub mod Glob
pub mod Copied
pub mod Dedupe
pub mod Exits
use ai_trans_clips_tts.Prelude.{
  ℕ, zero, suc, ◌+◌, ◌-◌, Bool, true, false, ◌||◌, ◌&&◌, not, Option, none, some, List, [], ◌∷◌,
  ◌++◌, map, if◌then◌else◌, ltb, leb, length, filter, any, ◌==◌, nat_eq, list_eq, option_eq,
}
use mathlib.Core.List.{reverse}
use ai_trans_clips_tts.Prelude.Int.{ℤ, pos, negsuc}
use ai_trans_clips_tts.Prelude.Sorting.{sort}
use ai_trans_clips_tts.Prelude.Dict.{Dict, get, put, pop}
use ai_trans_clips_tts.Prelude.Text.{
  Text, codes, strip, lower, split, starts_with, text_leb, is_blank, is_digit, parse_int,
}
use ai_trans_clips_tts.VideoWorker.Platforms.{
  ParsedUrl, Platforms, Network, UrlError, validate_url, platform_of, ends_with,
}
use ai_trans_clips_tts.VideoWorker.Errors.{DownloadError, download_error, classify}

-- A file: its size, its time, and what `read_text` gives of it.
pub record File : Type 0 where
  pub size : ℕ
  pub mtime : ℕ
  pub text : Text

abbrev pub Files : Type 0
Files = Dict Text File

-- The two directories, and the number of the next process of yt-dlp.
pub record Disk : Type 0 where
  pub output : Files
  pub cache : Files
  pub calls : ℕ

pub record DownloadResult : Type 0 where
  pub path : Text
  pub filename : Text
  pub from_cache : Bool

pub data Result {ℓ} (A : Type ℓ) : Type ℓ where
  ok : A → Result A
  invalid : UrlError → Result A
  raised : DownloadError → Result A

-- How a process of yt-dlp ends: by the timeout, or with `returncode`, and its stderr and stdout.
pub data Process : Type 0 where
  killed : Process
  exited : Option ℤ → Text → Text → Process

-- What `client.stream` gives: an exception, or Content-Length and the file that the chunks make, if
-- they all come.
pub data Fetched : Type 0 where
  refused : Fetched
  answered : Option Text → Option File → Fetched

-- A tool for Douyin: it gets the URL, the name of the file to write and a cookie jar, and says whether
-- it has written it.
abbrev pub Tool : Type 0
Tool = Text → Text → Text → Files → Bool × Files

-- The settings and the parameters.
pub record World : Type 0 where
  pub max_bytes : ℕ
  pub max_filesize_arg : Text
  pub cache_ttl : ℕ
  pub ytdlp_base : List Text
  pub output_dir : Text
  pub yt_dlp_proxy : Text
  pub douyin_proxy : Text
  pub platforms : Platforms
  pub network : Network
  pub urlparse : Text → ParsedUrl
  pub url_hash : Text → Text
  pub is_file : Text → Bool
  pub cookie_file_for : Text → Text
  pub logged_in : Text
  pub refreshed : Text
  pub ytdlp : ℕ → List Text → Files → Process × Files
  pub fetch : Text → Fetched
  pub canonical_url : Text → Text
  pub apifree : Text → Text → Files → Bool × Files
  pub douyin_downloader : Tool
  pub f2 : Tool

-- FORMATS
unfoldable pub formats : List Text
formats =
    codes
      "bestvideo[vcodec^=avc1][height<=1080]+bestaudio[acodec^=mp4a]/best[ext=mp4][height<=1080]"
    ∷ codes "bestvideo[vcodec^=avc1]+bestaudio[acodec^=mp4a]/best[ext=mp4]"
    ∷ codes "bestvideo[ext=mp4]+bestaudio[ext=m4a]/best[ext=mp4]"
    ∷ codes "bestvideo+bestaudio/best"
    ∷ []

-- DIRECT_EXTENSIONS
unfoldable pub direct_extensions : List Text
direct_extensions = map codes (
    ".mp4" ∷ ".webm" ∷ ".mkv" ∷ ".mov" ∷ ".avi" ∷ ".wmv" ∷ ".flv" ∷ ".m4v" ∷ ".mp3" ∷ ".wav"
    ∷ ".ogg" ∷ ".aac" ∷ ".m4a" ∷ [])

abbrev pub too_large : DownloadError
too_large = download_error (codes "TOO_LARGE") []

abbrev pub names : Files → List Text
names files = map (λ (name, file). name) files

-- `_existing`
unfoldable pub existing : Text → Files → List Text
unfolding starts_with text_leb sort
existing job_id files = sort text_leb (filter (starts_with (job_id ++ codes "_")) (names files))

-- `_check_size`: whether TOO_LARGE is raised.
abbrev pub sized : ℕ → Text → Option File → Files → Bool × Files
sized max_bytes name none files = (false, files)
sized max_bytes name (some file) files =
    if ltb max_bytes file.size then (true, pop files name) else (false, files)

unfoldable pub check_size : ℕ → Text → Files → Bool × Files
check_size max_bytes name files = sized max_bytes name (get files name) files

-- The end of `_adopt`, for the first file; `glob` has listed it, so it is there.
abbrev pub or_unlink : Text → Option File → Files → Option Text × Files
or_unlink first none files = (none, files)
or_unlink first (some file) files =
    if ltb 1024 file.size then (some first, files) else (none, pop files first)

abbrev pub if_small : Text → Bool × Files → Result (Option Text) × Files
if_small first (true, files) = (raised too_large, files)
if_small first (false, files) =
    let (adopted, files') = or_unlink first (get files first) files in (ok adopted, files')

abbrev pub adopt_first : ℕ → List Text → Files → Result (Option Text) × Files
adopt_first max_bytes [] files = (ok none, files)
adopt_first max_bytes (first ∷ rest) files = if_small first (check_size max_bytes first files)

-- `_adopt`
unfoldable pub adopt : ℕ → Text → Files → Result (Option Text) × Files
unfolding existing check_size download_error
adopt max_bytes job_id files = adopt_first max_bytes (existing job_id files) files

-- The text behind the last dot, and what is before it, both reversed.
abbrev pub until_dot : Text → Text
until_dot [] = []
until_dot (c ∷ s) = if c == 46 then [] else c ∷ until_dot s

abbrev pub from_dot : Text → Text
from_dot [] = []
from_dot (c ∷ s) = if c == 46 then c ∷ s else from_dot s

abbrev pub suffix_of : Text → Text → Text
suffix_of [] before = []
suffix_of (c ∷ ext) [] = []
suffix_of (c ∷ ext) (dot ∷ []) = []
suffix_of (c ∷ ext) (dot ∷ (d ∷ stem)) = 46 ∷ reverse (c ∷ ext)

-- `path.suffix`: from the last dot on, unless it is the first or the last character.
unfoldable pub suffix : Text → Text
suffix name = suffix_of (until_dot (reverse name)) (from_dot (reverse name))

abbrev pub or_text : Text → Text → Text
or_text [] default = default
or_text (c ∷ s) default = c ∷ s

-- `_display_name`
abbrev behind_first : Text → Option Text
behind_first [] = none
behind_first (c ∷ s) = if c == 95 then some s else behind_first s

unfoldable pub display_name : Text → Text
display_name name = elim (behind_first name) [ none ↦ name | some rest ↦ or_text rest name ]
