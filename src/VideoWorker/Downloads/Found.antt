-- ===== src/VideoWorker/Downloads/Found.antt =====
-- The videos that the tiers of video-worker/downloader.py find in the output directory.
use ai_trans_clips_tts.Prelude.{
  ℕ, ◌≤◌, ◌<◌, ◌≡◌, refl, subst, inl, inr, sym, ◌∙◌, true, Option, none, some, List, [], ◌∷◌, ◌++◌,
  All, filter-All, ltb, ltb→lt, ltb→le, nat_eq, list_eq, option_eq, ==_refl, Bool-cases,
}
use ai_trans_clips_tts.Prelude.Sorting.{sort-All}
use ai_trans_clips_tts.Prelude.Dict.{get, put, get-put_self, some_injective}
use ai_trans_clips_tts.Prelude.Text.{Text, codes, starts_with, text_leb}
use ai_trans_clips_tts.VideoWorker.Downloads.{
  World, Disk, File, Files, Fetched, refused, answered, Result, ok, raised, adopt, adopt_first,
  if_small, check_size, existing, names, sized, too_large,
}
use ai_trans_clips_tts.VideoWorker.Downloads.Trials.{Run, adopt_on, start_ytdlp, try_runs}
use ai_trans_clips_tts.VideoWorker.Downloads.Tiers.{
  is_direct_media, direct_name, is_too_long, download_direct, checked, after_fetch, try_direct,
}
use ai_trans_clips_tts.VideoWorker.Downloads.Calls.{after_run_ends, ok_injective}

-- A file of the job in the output directory, with more than 1024 bytes and no more than are allowed.
abbrev pub IsVideo : ℕ → Text → Files → Text → Type 0
IsVideo max_bytes job_id files name =
    (file : File) × (get files name ≡ some file)
    × (1024 < file.size)
    × (file.size ≤ max_bytes)
    × (starts_with (job_id ++ codes "_") name ≡ true)

module _ (max_bytes : ℕ) (job_id : Text) where
  existing-All :
      (files : Files)
      → All (λ name. starts_with (job_id ++ codes "_") name ≡ true) (existing job_id files)
  unfolding existing
  existing-All files =
      sort-All text_leb _ _ (filter-All (starts_with (job_id ++ codes "_")) (names files))

  if_small-some :
      (first path : Text) (files : Files) (o : Option File)
      → starts_with (job_id ++ codes "_") first ≡ true
      → get files first ≡ o
      → (if_small first (sized max_bytes first o files)).0 ≡ ok (some path)
      → ((if_small first (sized max_bytes first o files)).1 ≡ files)
        × IsVideo max_bytes job_id files path
  if_small-some first path files none of_job found h =
      let no : ok none ≡ ok (some path) = rw found at h in absurd (cc no)
  if_small-some first path files (some file) of_job found h =
      elim (Bool-cases (ltb max_bytes file.size)) [
        | inl large ↦ let no : raised too_large ≡ ok (some path) = rw large at h in absurd (cc no)
        | inr fits ↦ elim (Bool-cases (ltb 1024 file.size)) [
          | inr small ↦
              let no : ok none ≡ ok (some path) = rw (fits, found, small) at h in absurd (cc no)
          | inl big ↦
              let same : ok (some first) ≡ ok (some path) = rw (fits, found, big) at h in
              let e : first ≡ path = cc same in
              rw (fits, found, big)
                (
                  refl,
                  subst (IsVideo max_bytes job_id files) e (
                    file,
                    found,
                    ltb→lt 1024 file.size big,
                    ltb→le max_bytes file.size fits,
                    of_job,
                  ),
                )
        ]
      ]

  adopt_first-some :
      (found : List Text) (path : Text) (files : Files)
      → All (λ name. starts_with (job_id ++ codes "_") name ≡ true) found
      → (adopt_first max_bytes found files).0 ≡ ok (some path)
      → ((adopt_first max_bytes found files).1 ≡ files) × IsVideo max_bytes job_id files path
  unfolding check_size
  adopt_first-some [] path files of_job h = absurd (cc h)
  adopt_first-some (first ∷ rest) path files of_job h =
      if_small-some first path files (get files first) of_job.0 refl h

  -- What `_adopt` returns is such a file, and it has changed nothing.
  pub adopt-IsVideo :
      (path : Text) (files : Files)
      → (adopt max_bytes job_id files).0 ≡ ok (some path)
      → ((adopt max_bytes job_id files).1 ≡ files) × IsVideo max_bytes job_id files path
  unfolding adopt
  adopt-IsVideo path files h =
      adopt_first-some (existing job_id files) path files (existing-All files) h

-- The answer of a tier that looks for a video.
abbrev pub Finds : World → Text → Result (Option Text) → Disk → Type 0
Finds w job_id r d = (path : Text) → r ≡ ok (some path) → IsVideo w.max_bytes job_id d.output path

module _ (w : World) (now : ℕ) (url job_id : Text) where
  pub adopt_on-Finds :
      (d : Disk) → Finds w job_id (adopt_on w url job_id d).0 (adopt_on w url job_id d).1
  adopt_on-Finds d path h =
      let (same, video) = adopt-IsVideo w.max_bytes job_id path d.output h in
      subst (λ files. IsVideo w.max_bytes job_id files path) (sym same) video

  pub try_runs-Finds :
      (runs : List Run) (log : List Text) (d : Disk)
      → Finds w job_id (try_runs w url job_id runs log d).0 (try_runs w url job_id runs log d).2
  unfolding try_runs
  try_runs-Finds [] log d = λ path h. absurd (cc h)
  try_runs-Finds (run ∷ runs) log d =
      let (ran, started) = start_ytdlp w url job_id run d in
      let (adopted, d') = adopt_on w url job_id started in
      after_run_ends (λ t. Finds w job_id t.0 t.2) run ran adopted log d'
        (try_runs w url job_id runs) (λ e path h. absurd (cc h)) (λ e path h. absurd (cc h))
        (λ got found path h. adopt_on-Finds started path (found ∙ h))
        (λ log'. try_runs-Finds runs log' d')

  direct-of_job :
      (s : Text) → starts_with (job_id ++ codes "_") (job_id ++ codes "_direct" ++ s) ≡ true
  unfolding starts_with
  direct-of_job s = of_job job_id
    where
      of_job : (job : Text) → starts_with (job ++ codes "_") (job ++ codes "_direct" ++ s) ≡ true
      of_job [] = refl
      of_job (c ∷ job) = rw (==_refl, of_job job) refl

  checked-Finds :
      (dest : Text) (file : File) (d : Disk)
      → starts_with (job_id ++ codes "_") dest ≡ true
      → Finds w job_id
          (checked dest (check_size w.max_bytes dest (put d.output dest file)) d).0
          (checked dest (check_size w.max_bytes dest (put d.output dest file)) d).1
  unfolding check_size
  checked-Finds dest file d of_job =
      rw get-put_self (elim (Bool-cases (ltb w.max_bytes file.size)) [
        | inl large ↦ rw large λ path h. absurd (cc h)
        | inr fits ↦
            rw (fits, get-put_self)
              (elim (Bool-cases (ltb 1024 file.size)) [
                | inr small ↦ rw small λ path h. absurd (cc h)
                | inl big ↦ rw big λ path h.
                    subst (IsVideo w.max_bytes job_id (put d.output dest file))
                      (some_injective (ok_injective h))
                      (
                        file,
                        get-put_self d.output dest file,
                        ltb→lt 1024 file.size big,
                        ltb→le w.max_bytes file.size fits,
                        of_job,
                      )
              ])
      ])

  after_fetch-Finds :
      (dest : Text) (f : Fetched) (d : Disk)
      → starts_with (job_id ++ codes "_") dest ≡ true
      → Finds w job_id (after_fetch w.max_bytes dest f d).0 (after_fetch w.max_bytes dest f d).1
  after_fetch-Finds dest refused d of_job = λ path h. absurd (cc h)
  after_fetch-Finds dest (answered content_length none) d of_job =
      elim (Bool-cases (is_too_long w.max_bytes content_length)) [
        | inl long ↦ rw long λ path h. absurd (cc h)
        | inr short ↦ rw short λ path h. absurd (cc h)
      ]
  after_fetch-Finds dest (answered content_length (some file)) d of_job =
      elim (Bool-cases (is_too_long w.max_bytes content_length)) [
        | inl long ↦ rw long λ path h. absurd (cc h)
        | inr short ↦ rw short (checked-Finds dest file d of_job)
      ]

  pub try_direct-Finds :
      (d : Disk)
      → Finds w job_id (try_direct w now url job_id d).0 (try_direct w now url job_id d).1
  unfolding download_direct direct_name
  try_direct-Finds d = elim (Bool-cases (is_direct_media url)) [
    | inl direct ↦
        rw direct (after_fetch-Finds (direct_name url job_id) (w.fetch url) d (direct-of_job _))
    | inr other ↦ rw other λ path h. absurd (cc h)
  ]
