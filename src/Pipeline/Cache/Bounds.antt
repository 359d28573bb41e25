-- ===== src/Pipeline/Cache/Bounds.antt =====
-- How much the cache of pipeline-worker/cache.py holds after a write, and which files stay.
use ai_trans_clips_tts.Prelude.{
  ℕ, ◌+◌, ◌-◌, ◌≤◌, ◌≡◌, refl, sym, ap, ◌∙◌, inl, inr, true, ◌&&◌, some, List, [], ◌∷◌, leb, length,
  arith, Bool-cases, leb→le, &&-eq-true, ◌==◌, list_eq, nat_eq, eq_of_==,
}
use ai_trans_clips_tts.Prelude.Sorting.{sort, length-sort}
use ai_trans_clips_tts.Prelude.Dict.{
  get, put, pop, IsDict, put-IsDict, pop-IsDict, length-pop, pop_absent, get-sort, sort-IsDict,
  get_head, get_tail_pop,
}
use ai_trans_clips_tts.Prelude.Text.{Text}
use ai_trans_clips_tts.Pipeline.Cache.{
  File, Files, Limits, Cache, size, fits, older, evict_from, evict_if_needed, put_cache,
}

size-pop :
    (d : Files) (k : Text) (f : File)
    → IsDict d
    → get d k ≡ some f
    → size (pop d k) + length f.content ≡ size d
unfolding get pop size
size-pop [] k f h found = absurd (ground arith)
size-pop ((j, g) ∷ d) k f h found = elim (Bool-cases (j == k)) [
  | inl same ↦ rw same (
      ground (
        arith,
        rw same at found,
        ap (λ (i : Text). get d i) (eq_of_== j k same),
        pop_absent d k,
        h.0,
      ))
  | inr other ↦ rw other (omega (arith, size-pop d k f h.1 (rw other at found)))
]

-- The list that is left to evict holds what the directory holds.
pub record Tracks (entries files : Files) (total : ℕ) : Type 0 where
  pub distinct : IsDict entries
  pub directory : IsDict files
  pub same : (key : Text) → get entries key ≡ get files key
  pub as_many : length entries ≡ length files
  pub as_large : total ≡ size files

pub Tracks-pop :
    (key : Text) (file : File) (rest files : Files) (total : ℕ)
    → Tracks ((key, file) ∷ rest) files total
    → Tracks rest (pop files key) (total - length file.content)
Tracks-pop key file rest files total t =
    let found : get files key ≡ some file = sym (t.same key) ∙ get_head rest key file in
    record {
      distinct = t.distinct.1;
      directory = pop-IsDict files key t.directory;
      same = λ j. get_tail_pop rest files key j file t.distinct.0 (t.same j);
      as_many = omega (arith, t.as_many, length-pop files key file t.directory found);
      as_large = omega (arith, t.as_large, size-pop files key file t.directory found);
    }

pub Tracks-all : (files : Files) → IsDict files → Tracks (sort older files) files (size files)
Tracks-all files h = record {
  distinct = sort-IsDict older files h;
  directory = h;
  same = λ j. get-sort older files j h;
  as_many = length-sort older files;
  as_large = refl;
}

fits-nil : (limits : Limits) (files : Files) → length files ≡ 0 → fits limits files ≡ true
unfolding fits size
fits-nil limits [] h = ground arith
fits-nil limits (entry ∷ files) h = absurd (omega arith)

pub fits-total :
    (limits : Limits) (files : Files) (total : ℕ)
    → total ≡ size files
    → fits limits files ≡ (leb (length files) limits.max_files && leb total limits.max_bytes)
unfolding fits
fits-total limits files total e = rw e refl

module _ (limits : Limits) where
  -- The eviction ends with a directory that fits.
  evict_from_fits :
      (entries : Files) (total : ℕ) (c : Cache)
      → Tracks entries c.files total
      → (fits limits (evict_from limits entries total c).files ≡ true)
        × IsDict (evict_from limits entries total c).files
  unfolding evict_from
  evict_from_fits [] total c t = (fits-nil limits c.files (sym t.as_many), t.directory)
  evict_from_fits ((key, file) ∷ rest) total c t =
      let t' = Tracks-pop key file rest c.files total t in
      elim (Bool-cases (
        leb (length (pop c.files key)) limits.max_files
        && leb (total - length file.content) limits.max_bytes)) [
          | inl enough ↦ rw enough (
            fits-total limits (pop c.files key) (total - length file.content) t'.as_large ∙ enough,
            t'.directory,
          )
          | inr more ↦ rw more (
              evict_from_fits rest (total - length file.content)
                (record c { files = pop c.files key; evictions = c.evictions + 1 }) t')
        ]

  evict_if_needed_fits :
      (c : Cache)
      → IsDict c.files
      → (fits limits (evict_if_needed limits c).files ≡ true)
        × IsDict (evict_if_needed limits c).files
  unfolding evict_if_needed
  evict_if_needed_fits c h = elim (Bool-cases (fits limits c.files)) [
    | inl enough ↦ rw enough (enough, h)
    | inr more ↦
        rw more (evict_from_fits (sort older c.files) (size c.files) c (Tracks-all c.files h))
  ]

-- After every write the cache holds at most the number of files and of bytes that are allowed, and
-- no two files have one name, if that was so before.
pub put_cache_bounds :
    (limits : Limits) (now : ℕ) (key : Text) (content : List ℕ) (c : Cache)
    → IsDict c.files
    → (length (put_cache limits now key content c).files ≤ limits.max_files)
      × (size (put_cache limits now key content c).files ≤ limits.max_bytes)
      × IsDict (put_cache limits now key content c).files
unfolding put_cache
put_cache_bounds limits now key content c h =
    let file : File = record { mtime = now; content = content } in
    let c' : Cache = record c { files = put c.files key file; writes = c.writes + 1 } in
    let (enough, distinct) = evict_if_needed_fits limits c' (put-IsDict c.files key file h) in
    let within =
      &&-eq-true (leb (length (evict_if_needed limits c').files) limits.max_files)
        (leb (size (evict_if_needed limits c').files) limits.max_bytes)
        (sym (
            fits-total limits (evict_if_needed limits c').files
              (size (evict_if_needed limits c').files) refl)
          ∙ enough) in
    (
      leb→le (length (evict_if_needed limits c').files) limits.max_files within.0,
      leb→le (size (evict_if_needed limits c').files) limits.max_bytes within.1,
      distinct,
    )
