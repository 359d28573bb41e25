-- ===== src/Pipeline/Cache/Hits.antt =====
-- What pipeline-worker/cache.py finds again of what it has written.
use ai_trans_clips_tts.Prelude.{
  ℕ, ◌+◌, ◌-◌, ◌≤◌, ◌<◌, ◌≡◌, refl, sym, ap, ◌∙◌, inl, inr, true, false, ◌&&◌, none, some, List, [],
  ◌∷◌, if◌then◌else◌, leb, length, All, arith, Bool-cases, leb→le, ◌==◌, list_eq, nat_eq, eq_of_==,
  ==_refl, ==_sym,
}
use ai_trans_clips_tts.Prelude.Sorting.{sort, IsSorted, sort-IsSorted}
use ai_trans_clips_tts.Prelude.Dict.{
  get, put, pop, IsDict, get-sort, get-put, get-put_self, put-IsDict, get_head, get_other,
  get-pop_other, get_behind, some_injective,
}
use ai_trans_clips_tts.Prelude.Text.{Text}
use ai_trans_clips_tts.Pipeline.Cache.{
  File, Files, Limits, Cache, size, fits, older, evict_from, evict_if_needed, put_cache, get_cache,
  is_cached,
}
use ai_trans_clips_tts.Pipeline.Cache.Bounds.{Tracks, Tracks-pop, Tracks-all, fits-total}

older_total : (x y : Text × File) → older x y ≡ false → older y x ≡ true
older_total (k, f) (j, g) h = ground (arith, h)

older_trans : (x y z : Text × File) → older x y ≡ true → older y z ≡ true → older x z ≡ true
older_trans (k, f) (j, g) (i, h) p q = ground (arith, p, q)

-- All files but the one of this name are older.
abbrev pub IsNewest : Text → ℕ → Files → Type 0
IsNewest key now files =
    (j : Text) (f : File) → (key == j) ≡ false → get files j ≡ some f → f.mtime < now

pub IsNewest-nil : (key : Text) (now : ℕ) → IsNewest key now []
unfolding get
IsNewest-nil key now j f other found = cc found

module _ (limits : Limits) (key : Text) (file : File) where
  -- A file that is alone and fits.
  alone :
      (files : Files)
      → get files key ≡ some file
      → length files ≡ 1
      → size files ≡ length file.content
  unfolding get size
  alone [] found one = absurd (omega arith)
  alone (entry ∷ other ∷ files) found one = absurd (omega arith)
  alone ((j, g) ∷ []) found one = ground (arith, found)

  alone-fits :
      (files : Files)
      → get files key ≡ some file
      → length files ≡ 1
      → 1 ≤ limits.max_files
      → length file.content ≤ limits.max_bytes
      → fits limits files ≡ true
  unfolding fits
  alone-fits files found one some_files small = ground (arith, alone files found one)

  -- Behind a file that is newer than all others, the sorted list ends.
  ends :
      (j : Text) (g : File) (rest : Files)
      → (key == j) ≡ true
      → file.mtime ≡ g.mtime
      → IsDict ((j, g) ∷ rest)
      → All (λ y. older (j, g) y ≡ true) rest
      → IsNewest key file.mtime ((j, g) ∷ rest)
      → length rest ≡ 0
  unfolding get
  ends j g [] same together h ordered newest = refl
  ends j g ((i, f) ∷ rest) same together h ordered newest =
      let apart : (j == i) ≡ false = ==_sym j i ∙ ground (arith, h.0) in
      let other : (key == i) ≡ false = rw (eq_of_== key j same) apart in
      absurd (
        omega
          (arith, newest i f other (rw (apart, ==_refl) refl), leb→le g.mtime f.mtime ordered.0))

  module _ (some_files : 1 ≤ limits.max_files)
      (small : length file.content ≤ limits.max_bytes) where
    evict_from-keeps :
        (entries : Files) (total : ℕ) (c : Cache)
        → Tracks entries c.files total
        → IsSorted older entries
        → IsNewest key file.mtime entries
        → get entries key ≡ some file
        → fits limits c.files ≡ false
        → get (evict_from limits entries total c).files key ≡ some file
    unfolding evict_from
    evict_from-keeps [] total c t ordered newest found full = sym (t.same key) ∙ found
    evict_from-keeps ((j, g) ∷ rest) total c t ordered newest found full =
        let t' = Tracks-pop j g rest c.files total t in
        elim (Bool-cases (j == key)) [
          | inl same ↦
              let together : file ≡ g =
                some_injective (sym found ∙ rw (eq_of_== j key same) (get_head rest key g)) in
              let last =
                ends j g rest (==_sym key j ∙ same) (ap (λ (f : File). f.mtime) together) t.distinct
                  ordered.0 newest in
              let full' =
                alone-fits c.files (sym (t.same key) ∙ found) (omega (arith, t.as_many, last))
                  some_files small in
              cc (full, full')
          | inr other ↦
              elim (Bool-cases (
                leb (length (pop c.files j)) limits.max_files
                && leb (total - length g.content) limits.max_bytes)) [
                  | inl enough ↦
                      rw enough (get-pop_other c.files j key other ∙ sym (t.same key) ∙ found)
                  | inr more ↦ rw more (
                      evict_from-keeps rest (total - length g.content)
                        (record c { files = pop c.files j; evictions = c.evictions + 1 }) t'
                        ordered.1
                        (λ i f ne e. newest i f ne (get_behind rest j i g f t.distinct.0 e))
                        (sym (get_other rest j key g other) ∙ found)
                        (fits-total limits (pop c.files j) (total - length g.content) t'.as_large
                          ∙ more))
                ]
        ]

    put_cache-get :
        (c : Cache)
        → IsDict c.files
        → IsNewest key file.mtime c.files
        → get (put_cache limits file.mtime key file.content c).files key ≡ some file
    unfolding put_cache evict_if_needed
    put_cache-get c h newest =
        let files' = put c.files key file in
        let h' = put-IsDict c.files key file h in
        elim (Bool-cases (fits limits files')) [
          | inl enough ↦ rw enough (get-put_self c.files key file)
          | inr more ↦ rw more (
              evict_from-keeps (sort older files') (size files')
                (record c { files = files'; writes = c.writes + 1 }) (Tracks-all files' h')
                (sort-IsSorted older older_total older_trans files')
                (λ i f ne e. newest i f ne (
                  sym (get-put c.files key i file ∙ rw ne refl)
                  ∙ sym (get-sort older files' i h')
                  ∙ e))
                (get-sort older files' key h' ∙ get-put_self c.files key file) more)
        ]

get_cache-found :
    (limits : Limits) (now : ℕ) (key : Text) (c : Cache) (file : File)
    → get c.files key ≡ some file
    → (get_cache limits now key c).0
      ≡ (if leb (now - file.mtime) limits.ttl then some file.content else none)
unfolding get_cache is_cached
get_cache-found limits now key c file found =
    elim (Bool-cases (leb (now - file.mtime) limits.ttl)) [
      | inl fresh ↦ rw (found, fresh, found) refl
      | inr stale ↦ rw (found, stale) refl
    ]

-- What is written is read again for as long as the time to live has not passed, and not after it,
-- whatever other files the write has evicted. It needs that the content alone is within the limits,
-- and that the files of other names are older than the write.
pub get_cache-put_cache :
    (limits : Limits) (now later : ℕ) (key : Text) (content : List ℕ) (c : Cache)
    → IsDict c.files
    → 1 ≤ limits.max_files
    → length content ≤ limits.max_bytes
    → IsNewest key now c.files
    → (get_cache limits later key (put_cache limits now key content c)).0
      ≡ (if leb (later - now) limits.ttl then some content else none)
get_cache-put_cache limits now later key content c h some_files small newest =
    let file : File = record { mtime = now; content = content } in
    get_cache-found limits later key (put_cache limits now key content c) file
      (put_cache-get limits key file some_files small c h newest)
