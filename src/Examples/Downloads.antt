-- ===== src/Examples/Downloads.antt =====
-- Small inputs for the model of video-worker/downloader.py.
use ai_trans_clips_tts.Prelude.{
  ℕ, zero, suc, ◌+◌, ◌≤◌, ◌≡◌, refl, ap, arith, true, false, none, some, List, [], ◌∷◌, length,
  ◌==◌, list_eq, nat_eq, option_eq,
}
use ai_trans_clips_tts.Prelude.Int.{pos}
use ai_trans_clips_tts.Prelude.Dict.{get, put}
use ai_trans_clips_tts.Prelude.Text.{Text, codes, strip, lower}
use ai_trans_clips_tts.VideoWorker.Platforms.{default_platforms, platform_of, rstrip_dots}
use ai_trans_clips_tts.VideoWorker.Downloads.{
  World, Disk, File, Files, Process, killed, exited, refused, DownloadResult, ok, existing, suffix,
  or_text, display_name,
}
use ai_trans_clips_tts.VideoWorker.Downloads.Trials.{Run, start_ytdlp, try_runs}
use ai_trans_clips_tts.VideoWorker.Downloads.Cached.{cache_name, name_file, is_skipped}
use ai_trans_clips_tts.VideoWorker.Downloads.Tiers.{download}
use ai_trans_clips_tts.VideoWorker.Downloads.Ready.{IsReady, download-IsReady}
use ai_trans_clips_tts.VideoWorker.Downloads.Calls.{download_bound}
use ai_trans_clips_tts.VideoWorker.Downloads.Dedupe.{download_dedupe}
use ai_trans_clips_tts.VideoWorker.Downloads.Exits.{try_runs_any_exit, try_runs-logged}

abbrev video : File
video = record { size = 4000; mtime = 90; text = [] }

-- The first process fails; the next one writes the video.
abbrev ytdlp : ℕ → List Text → Files → Process × Files
ytdlp zero args files = (exited (some (pos 1)) (codes "HTTP Error 403") [], files)
ytdlp (suc n) args files = (exited (some (pos 0)) [] [], put files (codes "j1_clip.mp4") video)

abbrev world : World
world = record {
  max_bytes = 5000;
  max_filesize_arg = codes "500M";
  cache_ttl = 1000;
  ytdlp_base = codes "yt_dlp" ∷ [];
  output_dir = codes "/out";
  yt_dlp_proxy = [];
  douyin_proxy = [];
  platforms = default_platforms;
  network = record { is_inner = λ ip. some false; resolve = λ host. none };
  urlparse = λ url. record { scheme = codes "https"; hostname = some (codes "youtu.be") };
  url_hash = λ url. codes "ab";
  is_file = λ path. false;
  cookie_file_for = λ platform. [];
  logged_in = [];
  refreshed = [];
  ytdlp = ytdlp;
  fetch = λ url. refused;
  canonical_url = λ url. url;
  apifree = λ url dest files. (false, files);
  douyin_downloader = λ url dest jar files. (false, files);
  f2 = λ url dest jar files. (false, files);
}

abbrev url : Text
url = codes "https://youtu.be/x"

abbrev new_disk : Disk
new_disk = record { output = []; cache = []; calls = 0 }

abbrev full_disk : Disk
full_disk = record {
  output = (codes "j1_clip.mp4", video) ∷ [];
  cache =
      (codes "ab.mp4", video)
      ∷ (codes "ab.name", record { size = 8; mtime = 100; text = codes "clip.mp4" })
      ∷ [];
  calls = 2;
}

abbrev clip : DownloadResult
clip = record { path = codes "j1_clip.mp4"; filename = codes "clip.mp4"; from_cache = false }

downloaded : download world 100 url (codes "j1") new_disk ≡ (ok clip, full_disk)
unfolding download default_platforms put get
downloaded = refl

not_douyin : (platform_of world.platforms (world.urlparse url) == some (codes "douyin")) ≡ false
unfolding platform_of default_platforms rstrip_dots lower
not_douyin = refl

returned : (download world 100 url (codes "j1") new_disk).0 ≡ ok clip
returned = ap (λ t. t.0) downloaded

disk_after : (download world 100 url (codes "j1") new_disk).1 ≡ full_disk
disk_after = ap (λ t. t.1) downloaded

download-IsReady_example :
    IsReady world 100 url (codes "j1") clip (download world 100 url (codes "j1") new_disk).1
download-IsReady_example =
    download-IsReady world 100 url (codes "j1") new_disk clip not_douyin returned

download_bound_example : (download world 100 url (codes "j1") new_disk).1.calls ≤ 0 + 16
download_bound_example = download_bound world 100 url (codes "j1") new_disk

no_file : existing (codes "j1") [] ≡ []
unfolding existing
no_file = refl

video_there : get full_disk.output (codes "j1_clip.mp4") ≡ some video
unfolding get
video_there = refl

no_file_of_next : existing (codes "j2") full_disk.output ≡ []
unfolding existing
no_file_of_next = refl

name_suffix : (suffix (name_file (world.url_hash url)) == codes ".name") ≡ true
unfolding suffix
name_suffix = refl

copy_usable : is_skipped world 500 url (cache_name world 100 url clip.path) video ≡ false
unfolding suffix
copy_usable = refl

download_dedupe_example :
    download world 500 url (codes "j2") (download world 100 url (codes "j1") new_disk).1 ≡ (
      ok (record {
        path = cache_name world 100 url clip.path;
        filename = or_text (strip (display_name clip.path)) (cache_name world 100 url clip.path);
        from_cache = true;
      }),
      (download world 100 url (codes "j1") new_disk).1,
    )
download_dedupe_example =
    download_dedupe world 100 500 url (codes "j1") (codes "j2") new_disk clip video no_file returned
      refl (rw disk_after video_there) name_suffix copy_usable (omega arith)
      (rw disk_after no_file_of_next)

-- A process that is killed leaves a part of its file.
abbrev part : Text
part = codes "j1_clip.mp4.part"

abbrev slow : World
slow = record world { ytdlp = λ n args files. (killed, put files part video) }

abbrev plain : Run
plain = ([], [], codes "plain", codes "best")

part_listed :
    existing (codes "j1") (start_ytdlp slow url (codes "j1") plain new_disk).1.output ≡ part ∷ []
unfolding existing put
part_listed = refl

part_there : get (start_ytdlp slow url (codes "j1") plain new_disk).1.output part ≡ some video
unfolding get put
part_there = refl

try_runs_any_exit_example :
    try_runs slow url (codes "j1") (plain ∷ []) [] new_disk
    ≡ (ok (some part), [], (start_ytdlp slow url (codes "j1") plain new_disk).1)
try_runs_any_exit_example =
    try_runs_any_exit slow url (codes "j1") plain [] [] new_disk part [] video part_listed
      part_there (omega arith) (omega arith)

-- A process that exits with 0 and writes nothing.
abbrev idle : World
idle = record world { ytdlp = λ n args files. (exited (some (pos 0)) [] [], files) }

nothing_tried : (try_runs idle url (codes "j1") (plain ∷ []) [] new_disk).0 ≡ ok none
unfolding try_runs
nothing_tried = refl

try_runs-logged_example : length (try_runs idle url (codes "j1") (plain ∷ []) [] new_disk).1 ≡ 0 + 1
try_runs-logged_example =
    try_runs-logged idle url (codes "j1") (plain ∷ []) [] new_disk nothing_tried
