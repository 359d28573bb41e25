-- ===== src/VideoWorker/Downloads/Copied.antt =====
-- A file that video-worker/downloader.py has copied to its cache is found there again.
use ai_trans_clips_tts.Prelude.{
  ℕ, ◌+◌, ◌<◌, ◌≡◌, refl, subst, inl, inr, sym, ◌∙◌, Bool, true, false, some, List, [], ◌∷◌, ◌++◌,
  filter, ◌==◌, nat_eq, list_eq, option_eq, ==_refl, eq_of_==, ==_sym, arith, Bool-cases,
}
use mathlib.Core.List.{reverse}
use ai_trans_clips_tts.Prelude.Dict.{get, put, get-put, get-put_self}
use ai_trans_clips_tts.Prelude.Text.{Text, codes, starts_with, strip}
use ai_trans_clips_tts.VideoWorker.Downloads.{
  World, Disk, File, Files, DownloadResult, names, suffix, or_text, suffix_of, until_dot, from_dot,
}
use ai_trans_clips_tts.VideoWorker.Downloads.Cached.{
  is_skipped, find_cached, listed, name_file, cache_name, filename_for, copied,
}
use ai_trans_clips_tts.VideoWorker.Downloads.Glob.{is_in, get-is_in, is_in-filter, cached_from-hit}

-- A new file has `h.` before its suffix.
starts_with_self : (h s : Text) → starts_with (h ++ codes ".") (h ++ 46 ∷ s) ≡ true
unfolding starts_with
starts_with_self [] s = refl
starts_with_self (c ∷ h) s = rw (==_refl, starts_with_self h s) refl

-- A suffix is empty or begins with a dot.
suffix_of-dot :
    (ext before : Text) → (s : Text) × (or_text (suffix_of ext before) (codes ".mp4") ≡ 46 ∷ s)
suffix_of-dot [] before = (_, refl)
suffix_of-dot (c ∷ ext) [] = (_, refl)
suffix_of-dot (c ∷ ext) (dot ∷ []) = (_, refl)
suffix_of-dot (c ∷ ext) (dot ∷ (d ∷ stem)) = (_, refl)

cache_name-of_url :
    (w : World) (now : ℕ) (url src : Text)
    → starts_with (w.url_hash url ++ codes ".") (cache_name w now url src) ≡ true
unfolding suffix
cache_name-of_url w now url src =
    let (s, e) = suffix_of-dot (until_dot (reverse src)) (from_dot (reverse src)) in
    rw e (starts_with_self (w.url_hash url) s)

of_filter :
    (p : Text → Bool) (xs : List Text) (name : Text)
    → is_in name (filter p xs) ≡ true
    → p name ≡ true
of_filter p [] name h = absurd (cc h)
of_filter p (x ∷ xs) name h = elim (Bool-cases (p x)) [
  | inr dropped ↦ of_filter p xs name (rw dropped at h)
  | inl kept ↦ elim (Bool-cases (x == name)) [
    | inl same ↦ subst (λ y. p y ≡ true) (eq_of_== x name same) kept
    | inr other ↦ of_filter p xs name (rw (kept, other) at h)
  ]
]

module _ (w : World) (now : ℕ) (url : Text) where
  abbrev IsNamed : Type 0
  IsNamed = (suffix (name_file (w.url_hash url)) == codes ".name") ≡ true

  name_file-skipped :
      (name : Text) (file : File)
      → IsNamed
      → (name_file (w.url_hash url) == name) ≡ true
      → is_skipped w now url name file ≡ true
  name_file-skipped name file ok_name same =
      let e : name_file (w.url_hash url) ≡ name = eq_of_== (name_file (w.url_hash url)) name same in
      subst (λ x. is_skipped w now url x file ≡ true) e (rw ok_name refl)

  -- What the cache holds after a file has been copied to it.
  module _ (c : Files) (src filename : Text) (file : File) (ok_name : IsNamed)
      (usable : is_skipped w now url (cache_name w now url src) file ≡ false) where
    abbrev grown : Files
    grown = copied w now url src filename (some file) c

    get-grown_self : get grown (cache_name w now url src) ≡ some file
    get-grown_self = elim (Bool-cases (name_file (w.url_hash url) == cache_name w now url src)) [
      | inl same ↦
          let skipped = name_file-skipped (cache_name w now url src) file ok_name same in
          absurd (ground (arith, skipped, usable))
      | inr other ↦ rw (get-put, other) (get-put_self c (cache_name w now url src) file)
    ]

    grown-skipped :
        ((name : Text) (f : File)
          → starts_with (w.url_hash url ++ codes ".") name ≡ true
          → get c name ≡ some f
          → is_skipped w now url name f ≡ true)
        → (name : Text) (f : File) → (name == cache_name w now url src) ≡ false
        → starts_with (w.url_hash url ++ codes ".") name ≡ true
        → get grown name ≡ some f
        → is_skipped w now url name f ≡ true
    grown-skipped skipped name f differs of_url found =
        elim (Bool-cases (name_file (w.url_hash url) == name)) [
          | inl same ↦ name_file-skipped name f ok_name same
          | inr other ↦
              let differs' : (cache_name w now url src == name) ≡ false =
                ==_sym (cache_name w now url src) name ∙ differs in
              skipped name f of_url (
                sym (get-put c (cache_name w now url src) name file ∙ rw differs' refl)
                ∙ sym (
                    get-put (put c (cache_name w now url src) file) (name_file (w.url_hash url))
                      name _
                    ∙ rw other refl)
                ∙ found)
        ]

    abbrev pub again : DownloadResult
    again = record {
      path = cache_name w now url src;
      filename = or_text (strip filename) (cache_name w now url src);
      from_cache = true;
    }

    filename_again :
        (cache : Files)
        → cache ≡ grown
        → filename_for (w.url_hash url) (cache_name w now url src) cache ≡ again.filename
    filename_again cache same = rw (same, get-put_self) refl

    -- The glob lists the new file, and the loop finds it.
    pub find_cached-hit :
        (later : ℕ) (d : Disk)
        → ((name : Text) (f : File)
            → starts_with (w.url_hash url ++ codes ".") name ≡ true
            → get c name ≡ some f
            → is_skipped w now url name f ≡ true)
        → later < file.mtime + w.cache_ttl
        → d.cache ≡ grown
        → find_cached w later url d ≡ (some again, d)
    unfolding find_cached
    find_cached-hit later d skipped fresh same =
        let target = cache_name w now url src in
        let p : Text → Bool = starts_with (w.url_hash url ++ codes ".") in
        let found : get d.cache target ≡ some file = rw same get-grown_self in
        rw (← filename_again d.cache same) (
          cached_from-hit w later url target file d found usable fresh (listed w later url d.cache)
            (is_in-filter p (names d.cache) target (cache_name-of_url w now url src)
              (get-is_in d.cache target file found))
            (λ name f differs listed' h.
              grown-skipped skipped name f differs (of_filter p (names d.cache) name listed')
                (subst (λ x. get x name ≡ some f) same h)))
