-- ===== src/VideoWorker/Downloads/Glob.antt =====
-- The loop over the cached files in video-worker/downloader.py: what it passes over, and what it finds.
use ai_trans_clips_tts.Prelude.{
  ℕ, ◌+◌, ◌<◌, ◌≡◌, refl, subst, inl, inr, sym, ◌∙◌, Bool, true, false, ◌||◌, Option, none, some,
  List, [], ◌∷◌, ◌++◌, filter, leb, ◌==◌, nat_eq, list_eq, option_eq, ==_refl, eq_of_==, arith,
  Bool-cases,
}
use ai_trans_clips_tts.Prelude.Dict.{get, pop, get-pop, some_injective}
use ai_trans_clips_tts.Prelude.Text.{Text, codes, starts_with}
use ai_trans_clips_tts.VideoWorker.Downloads.{World, Disk, File, Files, DownloadResult, names}
use ai_trans_clips_tts.VideoWorker.Downloads.Cached.{
  is_skipped, look_at, expired, cached_from, find_cached, listed, name_file, filename_for,
}

-- A name is in the list.
abbrev pub is_in : Text → List Text → Bool
is_in name [] = false
is_in name (n ∷ rest) = n == name || is_in name rest

pub get-is_in :
    (files : Files) (name : Text) (file : File)
    → get files name ≡ some file
    → is_in name (names files) ≡ true
unfolding get
get-is_in [] name file h = absurd (cc h)
get-is_in ((n, f) ∷ files) name file h = ground (arith, get-is_in files name file, h)

pub is_in-filter :
    (p : Text → Bool) (xs : List Text) (name : Text)
    → p name ≡ true
    → is_in name xs ≡ true
    → is_in name (filter p xs) ≡ true
is_in-filter p [] name holds h = h
is_in-filter p (x ∷ xs) name holds h = elim (Bool-cases (x == name)) [
  | inl same ↦
      let e : x ≡ name = eq_of_== x name same in
      let px : p x ≡ true = rw e holds in rw (px, same) refl
  | inr other ↦ elim (Bool-cases (p x)) [
    | inl kept ↦ rw (kept, other) (is_in-filter p xs name holds (rw other at h))
    | inr dropped ↦ rw dropped (is_in-filter p xs name holds (rw other at h))
  ]
]

-- One dictionary has entries of the other only.
abbrev IsPart : Files → Files → Type 0
IsPart c' c = (name : Text) (file : File) → get c' name ≡ some file → get c name ≡ some file

pop-IsPart : (c : Files) (k : Text) → IsPart (pop c k) c
pop-IsPart c k name file h = ground (arith, get-pop c k name, h)

module _ (w : World) (now : ℕ) (url : Text) where
  -- A miss: what is left in the cache of those names is passed over.
  abbrev IsMiss : List Text → Files → Option DownloadResult × Disk → Type 0
  IsMiss names c t =
      t.0 ≡ none
      → IsPart t.1.cache c
        × ((name : Text) (file : File)
            → is_in name names ≡ true
            → get t.1.cache name ≡ some file
            → is_skipped w now url name file ≡ true)

  expired-IsPart : (name : Text) (d : Disk) → IsPart (expired w now url name d).cache d.cache
  expired-IsPart name d n f h =
      pop-IsPart d.cache name n f (pop-IsPart (pop d.cache name) (name_file (w.url_hash url)) n f h)

  -- From the rest of the list to the list, when its first name is passed over or gone.
  IsMiss-step :
      (name : Text) (rest : List Text) (c : Files) (t : Option DownloadResult × Disk)
      → IsPart t.1.cache c
      → ((file : File) → get t.1.cache name ≡ some file → is_skipped w now url name file ≡ true)
      → ((n : Text) (file : File)
          → is_in n rest ≡ true
          → get t.1.cache n ≡ some file
          → is_skipped w now url n file ≡ true)
      → (n : Text) (file : File) → is_in n (name ∷ rest) ≡ true
      → get t.1.cache n ≡ some file
      → is_skipped w now url n file ≡ true
  IsMiss-step name rest c t part first later n file listed' found = elim (Bool-cases (name == n)) [
    | inl same ↦
        let e : name ≡ n = eq_of_== name n same in
        subst (λ x. is_skipped w now url x file ≡ true) e
          (first file (subst (λ x. get t.1.cache x ≡ some file) (sym e) found))
    | inr other ↦ later n file (rw other at listed') found
  ]

  look_at-IsMiss :
      (name : Text) (rest : List Text) (o : Option File) (d : Disk)
      (skip expire : Option DownloadResult × Disk)
      → get d.cache name ≡ o
      → IsMiss rest d.cache skip
      → IsMiss rest (expired w now url name d).cache expire
      → IsMiss (name ∷ rest) d.cache (look_at w now url name o d skip expire)
  look_at-IsMiss name rest none d skip expire found s e = λ none_of_them.
      let (part, later) = s none_of_them in
      (
        part,
        IsMiss-step name rest d.cache skip part
            (λ file h. let no : none ≡ some file = sym found ∙ part name file h in absurd (cc no))
            later,
      )
  look_at-IsMiss name rest (some file) d skip expire found s e =
      elim (Bool-cases (is_skipped w now url name file)) [
        | inl skipped ↦ rw skipped λ none_of_them.
            let (part, later) = s none_of_them in
            (
              part,
              IsMiss-step name rest d.cache skip part
                  (λ f h.
                    let same : file ≡ f = some_injective (sym found ∙ part name f h) in
                    subst (λ x. is_skipped w now url name x ≡ true) same skipped)
                  later,
            )
        | inr kept ↦ elim (Bool-cases (leb (file.mtime + w.cache_ttl) now)) [
          | inr fresh ↦ rw (kept, fresh) λ none_of_them. absurd (cc none_of_them)
          | inl late ↦
              rw (kept, late)
                λ none_of_them.
                  let (part, later) = e none_of_them in
                  (
                    (λ n f h. expired-IsPart name d n f (part n f h)),
                    IsMiss-step name rest d.cache expire
                        (λ n f h. expired-IsPart name d n f (part n f h))
                        (λ f h. absurd (
                          popped_twice d.cache name (name_file (w.url_hash url)) f (part name f h)))
                        later,
                  )
        ]
      ]
    where
      popped_twice : (c : Files) (k j : Text) (f : File) → get (pop (pop c k) j) k ≡ some f → ⊥
      popped_twice c k j f h = ground (arith, get-pop (pop c k) j k, get-pop c k k, h, ==_refl k)

  cached_from-IsMiss :
      (names : List Text) (d : Disk) → IsMiss names d.cache (cached_from w now url names d)
  unfolding cached_from
  cached_from-IsMiss [] d = λ e. ((λ n f h. h), (λ n f h. absurd (cc h)))
  cached_from-IsMiss (name ∷ rest) d =
      look_at-IsMiss name rest (get d.cache name) d _ _ refl (cached_from-IsMiss rest d)
        (cached_from-IsMiss rest (expired w now url name d))

  -- After a miss, all that the glob lists is passed over.
  pub find_cached-IsMiss :
      (d : Disk)
      → (find_cached w now url d).0 ≡ none
      → (name : Text) (file : File) → starts_with (w.url_hash url ++ codes ".") name ≡ true
      → get (find_cached w now url d).1.cache name ≡ some file
      → is_skipped w now url name file ≡ true
  unfolding find_cached
  find_cached-IsMiss d miss name file of_url found =
      let (part, skipped) = cached_from-IsMiss (listed w now url d.cache) d miss in
      skipped name file
        (is_in-filter (starts_with (w.url_hash url ++ codes ".")) (names d.cache) name of_url
          (get-is_in d.cache name file (part name file found)))
        found

  -- The loop finds a file that is new enough, when it passes over all others.
  module _ (target : Text) (file : File) (d : Disk) (found : get d.cache target ≡ some file)
      (usable : is_skipped w now url target file ≡ false)
      (fresh : now < file.mtime + w.cache_ttl) where
    abbrev pub hit : Option DownloadResult × Disk
    hit = (
      some (record {
        path = target;
        filename = filename_for (w.url_hash url) target d.cache;
        from_cache = true;
      }),
      d,
    )

    look_at-hit :
        (skip expire : Option DownloadResult × Disk)
        → look_at w now url target (get d.cache target) d skip expire ≡ hit
    look_at-hit skip expire =
        let early : leb (file.mtime + w.cache_ttl) now ≡ false = ground (arith, fresh) in
        rw (found, usable, early) refl

    look_at-other :
        (name : Text) (o : Option File) (skip expire : Option DownloadResult × Disk)
        → ((f : File) → o ≡ some f → is_skipped w now url name f ≡ true)
        → look_at w now url name o d skip expire ≡ skip
    look_at-other name none skip expire others = refl
    look_at-other name (some f) skip expire others = rw (others f refl) refl

    pub cached_from-hit :
        (names : List Text)
        → is_in target names ≡ true
        → ((name : Text) (f : File)
            → (name == target) ≡ false
            → is_in name names ≡ true
            → get d.cache name ≡ some f
            → is_skipped w now url name f ≡ true)
        → cached_from w now url names d ≡ hit
    unfolding cached_from
    cached_from-hit [] inside others = absurd (cc inside)
    cached_from-hit (name ∷ rest) inside others = elim (Bool-cases (name == target)) [
      | inl same ↦ rw (eq_of_== name target same) (look_at-hit _ _)
      | inr other ↦
          look_at-other name (get d.cache name) _ _ (λ f h. others name f other (rw ==_refl refl) h)
          ∙ cached_from-hit rest (rw other at inside)
              (λ n f differs listed' h. others n f differs (ground (arith, listed')) h)
    ]
