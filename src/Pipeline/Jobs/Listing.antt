-- ===== src/Pipeline/Jobs/Listing.antt =====
-- `list_jobs` of pipeline-worker/jobs.py: what it drops, what it keeps and in which order.
use mathlib.Core.List.{Perm}
use ai_trans_clips_tts.Prelude.{
  ℕ, ◌+◌, ◌≤◌, String, true, false, none, List, [], ◌∷◌, ◌≡◌, refl, ap, arith, ◌==◌, string_eq,
  if◌then◌else◌, length, any, All, All-take, All-weaken, length-take-le, take_all, Option-cases,
}
use ai_trans_clips_tts.Prelude.Dict.{Dict, get, values, get-pop, IsDict, All-values}
use ai_trans_clips_tts.Prelude.Sorting.{
  sort, sort-All, sort-IsSorted, IsSorted, IsSorted-take, sort-perm, length-sort,
}
use ai_trans_clips_tts.Pipeline.Jobs.{
  Job, Store, job_ttl, is_expired, stale_ids, remove_all, remove_job, list_jobs, get_job,
  newest_first,
}
use ai_trans_clips_tts.Pipeline.Jobs.Expiry.{get_job-fresh, keep_fresh}
use ai_trans_clips_tts.Pipeline.Jobs.Updates.{IsValid, remove_all-IsValid}

get-remove_all :
    (ids : List String) (s : Store) (i : String)
    → get (remove_all ids s).jobs i ≡ (if any (λ x. x == i) ids then none else get s.jobs i)
unfolding remove_all remove_job
get-remove_all [] s i = refl
get-remove_all (x ∷ rest) s i =
    ground (arith, get-remove_all rest (remove_job x s) i, get-pop s.jobs x i)

absent-stale_ids :
    (now : ℕ) (d : Dict String Job) (i : String)
    → get d i ≡ none
    → any (λ x. x == i) (stale_ids now d) ≡ false
unfolding stale_ids get
absent-stale_ids now [] i h = refl
absent-stale_ids now ((j, job) ∷ d) i h = ground (arith, absent-stale_ids now d i)

-- An id is stale exactly when its job is.
any-stale_ids :
    (now : ℕ) (d : Dict String Job) (i : String)
    → IsDict d
    → (if any (λ x. x == i) (stale_ids now d) then none else get d i) ≡ keep_fresh now (get d i)
unfolding stale_ids get
any-stale_ids now [] i h = refl
any-stale_ids now ((j, job) ∷ d) i h = ground (
  arith,
  any-stale_ids now d i h.1,
  string_eq.eqb_iff j i,
  h.0,
  absent-stale_ids now d i,
  λ (e : j ≡ i). ap (λ (k : String). get d k) e,
)

-- From a store in which every id stands once, listing drops exactly the jobs that a look-up would no
-- longer find.
pub list_jobs-eq-get_job :
    (now limit : ℕ) (i : String) (s : Store)
    → IsDict s.jobs
    → get (list_jobs now limit s).1.jobs i ≡ (get_job now i s).0
unfolding list_jobs
list_jobs-eq-get_job now limit i s h =
    rw (get-remove_all, get_job-fresh) (any-stale_ids now s.jobs i h)

fresh-values :
    (now : ℕ) (s : Store)
    → IsValid s
    → All (λ job. is_expired now job ≡ false) (values (remove_all (stale_ids now s.jobs) s).jobs)
fresh-values now s v =
    let s' = remove_all (stale_ids now s.jobs) s in
    All-values (λ job. is_expired now job ≡ false) s'.jobs
      (remove_all-IsValid (stale_ids now s.jobs) v).unique
      λ k job found. ground (
        arith,
        get-remove_all (stale_ids now s.jobs) s k,
        any-stale_ids now s.jobs k v.unique,
        found,
        Option-cases (get s.jobs k),
      )

in_time : (now : ℕ) (job : Job) → is_expired now job ≡ false → now ≤ job.updated_at + job_ttl
unfolding is_expired
in_time now job h = ground arith

newest_first_total : (a b : Job) → newest_first a b ≡ false → newest_first b a ≡ true
newest_first_total a b h = ground arith

newest_first_trans :
    (a b c : Job) → newest_first a b ≡ true → newest_first b c ≡ true → newest_first a c ≡ true
newest_first_trans a b c h k = ground arith

-- Of a well-formed store, at most `limit` jobs are listed, newest first, and none of them is past its
-- time to live.
pub list_jobs-IsSorted :
    (now limit : ℕ) (s : Store)
    → IsValid s
    → (length (list_jobs now limit s).0 ≤ limit)
      × IsSorted newest_first (list_jobs now limit s).0
      × All (λ job. now ≤ job.updated_at + job_ttl) (list_jobs now limit s).0
unfolding list_jobs
list_jobs-IsSorted now limit s v =
    let listed = values (remove_all (stale_ids now s.jobs) s).jobs in
    (
      length-take-le limit (sort newest_first listed),
      IsSorted-take newest_first limit (sort newest_first listed)
          (sort-IsSorted newest_first newest_first_total newest_first_trans listed),
      All-take (λ job. now ≤ job.updated_at + job_ttl) limit (sort newest_first listed)
          (sort-All newest_first (λ job. now ≤ job.updated_at + job_ttl) listed
            (All-weaken (λ job. is_expired now job ≡ false) (λ job. now ≤ job.updated_at + job_ttl)
              listed (in_time now) (fresh-values now s v))),
    )

-- With room for them all, exactly the jobs that the store keeps are listed, each once.
pub list_jobs-perm :
    (now limit : ℕ) (s : Store)
    → length (values (list_jobs now limit s).1.jobs) ≤ limit
    → Perm (list_jobs now limit s).0 (values (list_jobs now limit s).1.jobs)
unfolding list_jobs
list_jobs-perm now limit s room =
    let listed = values (remove_all (stale_ids now s.jobs) s).jobs in
    rw (take_all limit (sort newest_first listed) (rw (length-sort newest_first listed) room))
      (sort-perm newest_first listed)
