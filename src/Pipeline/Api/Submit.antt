-- ===== src/Pipeline/Api/Submit.antt =====
-- The route of pipeline-worker/main.py that creates a job: backpressure and idempotency.
use ai_trans_clips_tts.Prelude.{
  ℕ, ◌+◌, ◌≤◌, inl, inr, Bool-cases, String, not, ◌&&◌, Option, none, some, List, [], ◌∷◌, ◌≡◌, ap,
  ◌∙◌, arith, string_eq, option_eq, leb, length, take_all, count,
}
use ai_trans_clips_tts.Prelude.Dict.{Dict, get, values, count-put_new, count-pop-le}
use ai_trans_clips_tts.Prelude.Sorting.{sort, count-sort, length-sort}
use ai_trans_clips_tts.Pipeline.Jobs.{
  Job, Store, choose_id, create_job, list_jobs, newest_first, remove_all, remove_job, stale_ids,
  find_by_idempotency_key,
}
use ai_trans_clips_tts.Pipeline.Api.{
  TranslateRequest, queue_max_depth, input_of, submit, in_flight, is_in_flight,
  create_translate_job, is_given, choose_key,
}

in_flight_of : Store → ℕ
in_flight_of s = in_flight (values s.jobs)

in_flight-remove_all :
    (ids : List String) (s : Store) → in_flight_of (remove_all ids s) ≤ in_flight_of s
unfolding remove_all remove_job in_flight in_flight_of
in_flight-remove_all [] s = omega arith
in_flight-remove_all (i ∷ ids) s = omega (
  arith,
  in_flight-remove_all ids (remove_job i s),
  count-pop-le (λ job. is_in_flight job.status) s.jobs i,
)

in_flight-list_jobs :
    (now : ℕ) (s : Store)
    → length (values (list_jobs now 200 s).1.jobs) ≤ 200
    → (in_flight (list_jobs now 200 s).0 ≡ in_flight_of (list_jobs now 200 s).1)
      × (in_flight_of (list_jobs now 200 s).1 ≤ in_flight_of s)
unfolding list_jobs in_flight in_flight_of
in_flight-list_jobs now s room =
    let listed = values (remove_all (stale_ids now s.jobs) s).jobs in
    (
      ap (λ (l : List Job). count (λ job. is_in_flight job.status) l)
            (take_all 200 (sort newest_first listed) (rw (length-sort newest_first listed) room))
          ∙ count-sort newest_first (λ job. is_in_flight job.status) listed,
      in_flight-remove_all (stale_ids now s.jobs) s,
    )

in_flight-submit :
    (now : ℕ) (fresh : String) (req : TranslateRequest) (key : String) (rid : Option String)
    (found : Option Job) (s : Store)
    → get s.jobs (choose_id req.job_id fresh) ≡ none
    → in_flight_of (submit now fresh req key rid found s).1 ≤ in_flight_of s + 1
unfolding submit create_job in_flight in_flight_of input_of
in_flight-submit now fresh req key rid (some job) s absent = omega arith
in_flight-submit now fresh req key rid none s absent =
    let job = (create_job now fresh (input_of req key rid) s).0 in
    ground (
      arith,
      count-put_new (λ j. is_in_flight j.status) s.jobs (choose_id req.job_id fresh) job absent,
    )

-- Backpressure: with at most 200 jobs in the store, and a new id that is not in use, a request of
-- any kind leaves at most QUEUE_MAX_DEPTH jobs queued or processing when there were no more before.
pub create_translate_job_bounds :
    (now : ℕ) (fresh : String) (req : TranslateRequest) (rid header : Option String)
    (canonical : TranslateRequest → String) (s : Store)
    → length (values (list_jobs now 200 s).1.jobs) ≤ 200
    → get (list_jobs now 200 s).1.jobs (choose_id req.job_id fresh) ≡ none
    → in_flight (values s.jobs) ≤ queue_max_depth
    → in_flight (values (create_translate_job now fresh req rid header canonical s).1.jobs)
      ≤ queue_max_depth
unfolding create_translate_job in_flight_of
create_translate_job_bounds now fresh req rid header canonical s room absent h =
    let (jobs, s') = list_jobs now 200 s in
    let key = choose_key header (canonical req) in
    let (seen, fewer) = in_flight-list_jobs now s room in
    let one_more =
      in_flight-submit now fresh req key rid (find_by_idempotency_key none key s') s' absent in
    elim (Bool-cases (not (is_given req.source_url) && not (is_given req.source_key))) [
      | inl neither ↦ rw neither h
      | inr some_source ↦ elim (Bool-cases (is_given req.source_url && is_given req.source_key)) [
        | inl both ↦ rw (some_source, both) h
        | inr one ↦ elim (Bool-cases (leb queue_max_depth (in_flight jobs))) [
          | inl full ↦ rw (some_source, one, full) (omega (arith, fewer, h))
          | inr room_left ↦
              rw (some_source, one, room_left) (ground (arith, seen, one_more, room_left))
        ]
      ]
    ]
