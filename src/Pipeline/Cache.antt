-- ===== src/Pipeline/Cache.antt =====
-- pipeline-worker/cache.py: the cache of transcriptions and of speech, a directory of files with the
-- counters for the metrics. A file is its time of modification, in seconds, and its content; the
-- directory is listed in the order in which its files were made. The failures of `unlink` and of the
-- listing, which the code swallows, do not occur.
pub mod Bounds
pub mod Hits
use ai_trans_clips_tts.Prelude.{
  ℕ, ◌+◌, ◌-◌, ◌*◌, Bool, true, false, ◌&&◌, Option, none, some, List, [], ◌∷◌, ◌++◌, if◌then◌else◌,
  ltb, leb, length, list_eq, nat_eq, take,
}
use ai_trans_clips_tts.Prelude.Sorting.{sort}
use ai_trans_clips_tts.Prelude.Dict.{Dict, get, put, pop}
use ai_trans_clips_tts.Prelude.Text.{Text, codes}

pub record File : Type 0 where
  pub mtime : ℕ
  pub content : List ℕ

abbrev pub Files : Type 0
Files = Dict Text File

-- CACHE_TTL_SECONDS, CACHE_MAX_FILES and `CACHE_MAX_SIZE_MB * 1024 * 1024`
pub record Limits : Type 0 where
  pub ttl : ℕ
  pub max_files : ℕ
  pub max_bytes : ℕ

abbrev pub default_limits : Limits
default_limits = record { ttl = 604800; max_files = 5000; max_bytes = 2048 * 1024 * 1024 }

-- CACHE_DIR and `_stats`
pub record Cache : Type 0 where
  pub files : Files
  pub hits : ℕ
  pub misses : ℕ
  pub writes : ℕ
  pub evictions : ℕ

abbrev pub empty_cache : Cache
empty_cache = record { files = []; hits = 0; misses = 0; writes = 0; evictions = 0 }

unfoldable pub size : Files → ℕ
size [] = 0
size ((key, file) ∷ files) = length file.content + size files

unfoldable pub fits : Limits → Files → Bool
fits limits files = leb (length files) limits.max_files && leb (size files) limits.max_bytes

-- Oldest first.
abbrev pub older : Text × File → Text × File → Bool
older (k, f) (j, g) = leb f.mtime g.mtime

-- The loop of `_evict_if_needed`, over what is left of the sorted list; `total` is `total_size`.
unfoldable pub evict_from : Limits → List (Text × File) → ℕ → Cache → Cache
evict_from limits [] total c = c
evict_from limits ((key, file) ∷ rest) total c =
    let c' : Cache = record c { files = pop c.files key; evictions = c.evictions + 1 } in
    let total' = total - length file.content in
    let later = evict_from limits rest total' c' in
    if leb (length (pop c.files key)) limits.max_files && leb total' limits.max_bytes
    then c'
    else later

unfoldable pub evict_if_needed : Limits → Cache → Cache
unfolding fits size evict_from
evict_if_needed limits c =
    if fits limits c.files then c else evict_from limits (sort older c.files) (size c.files) c

-- `put_cache`: the file is written aside and moved into its place.
unfoldable pub put_cache : Limits → ℕ → Text → List ℕ → Cache → Cache
unfolding evict_if_needed
put_cache limits now key content c = evict_if_needed limits (record c {
  files = put c.files key (record { mtime = now; content = content });
  writes = c.writes + 1;
})

abbrev is_fresh : Limits → ℕ → File → Bool
is_fresh limits now file = leb (now - file.mtime) limits.ttl

-- `is_cached`: a file that is too old is deleted.
abbrev check_age : Limits → ℕ → Text → Cache → Option File → Bool × Cache
check_age limits now key c none = (false, c)
check_age limits now key c (some file) =
    if is_fresh limits now file then (true, c) else (false, record c { files = pop c.files key })

unfoldable pub is_cached : Limits → ℕ → Text → Cache → Bool × Cache
is_cached limits now key c = check_age limits now key c (get c.files key)

abbrev read_file : ℕ → Text → Cache → Option File → Option (List ℕ) × Cache
read_file now key c none = (none, record c { misses = c.misses + 1 })
read_file now key c (some file) = (
  some file.content,
  record c { files = put c.files key (record file { mtime = now }); hits = c.hits + 1 },
)

-- `get_cache`: a hit is touched.
unfoldable pub get_cache : Limits → ℕ → Text → Cache → Option (List ℕ) × Cache
unfolding is_cached
get_cache limits now key c =
    let (cached, c') = is_cached limits now key c in
    if cached
    then read_file now key c' (get c'.files key)
    else (none, record c' { misses = c'.misses + 1 })

abbrev or_empty : Option Text → Text
or_empty none = []
or_empty (some text) = text

-- `hexdigest()[:16]`, and the keys of the two caches: their parts are hashed one after the other.
module _ (encode : Text → List ℕ) (sha256_hex : List ℕ → Text) where
  unfoldable pub gemini_cache_key : List ℕ → Text → Text → Text → Text
  gemini_cache_key audio source_lang target_lang model =
      codes "gemini_"
      ++ take 16 (sha256_hex (audio ++ encode source_lang ++ encode target_lang ++ encode model))
      ++ codes ".json"

  unfoldable pub tts_cache_key : Text → Text → Option Text → Text → Text
  tts_cache_key text language voice engine =
      codes "tts_"
      ++ take 16
          (sha256_hex (encode text ++ encode language ++ encode (or_empty voice) ++ encode engine))
      ++ codes ".mp3"
