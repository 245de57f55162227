-- ===== src/Worker/Wakeups.antt =====
-- Each job that a sweep leaves FAILED has a message in the queue.
use gen_ai_backend.Prelude.{
  ℕ, String, str_eq, ◌≡◌, refl, sym, ap, ◌∙◌, Bool, true, false, Bool-cases, inl, inr, ◌||◌, Option,
  none, some, List, [], ◌∷◌, ◌++◌, arith, leb,
}
use gen_ai_backend.IngestJobs.{
  queued, processing, failed, dead, IngestJob, Jobs, get_ingest_job, finish_ingest_job, status_eq,
  list_ingest_jobs_by_status,
}
use gen_ai_backend.IngestJobs.Lookup.{HasUniqueIds}
use gen_ai_backend.IngestJobs.Listing.{with_status, get-list_ingest_jobs_by_status}
use gen_ai_backend.JobQueue.{JobQueue, send}
use gen_ai_backend.Worker.{sweep_queued, sweep_processing, sweep_failed, run_sweep}
use gen_ai_backend.Worker.Sweep.{closed, get-after_failed}
use gen_ai_backend.Worker.Passes.{on_found, sweep_processing-HasUniqueIds}

abbrev pub has_message : String → List String → Bool
has_message k [] = false
has_message k (x ∷ xs) = str_eq x k || has_message k xs

has_message-send :
    (k id : String) (xs : List String)
    → has_message k (xs ++ id ∷ []) ≡ has_message k xs || str_eq id k
has_message-send k id [] = ground arith
has_message-send k id (x ∷ xs) = ground (arith, has_message-send k id xs)

module _ (now max_attempts : ℕ) (k : String) where
  sweep_failed_keeps :
      (l jobs : Jobs) (q : JobQueue)
      → has_message k q.visible ≡ true
      → has_message k (sweep_failed now max_attempts l jobs q).1.visible ≡ true
  unfolding sweep_failed send
  sweep_failed_keeps [] jobs q h = h
  sweep_failed_keeps (j ∷ js) jobs q h = elim (Bool-cases (leb max_attempts j.attempts)) [
    | inl y ↦ rw y (sweep_failed_keeps js (finish_ingest_job now j.id dead j.error jobs) q h)
    | inr n ↦ rw n (
        sweep_failed_keeps js jobs (send j.id q) (has_message-send k j.id q.visible ∙ ground arith))
  ]

  sweep_failed_wakes :
      (l jobs : Jobs) (q : JobQueue) (j : IngestJob)
      → get_ingest_job k l ≡ some j
      → leb max_attempts j.attempts ≡ false
      → has_message k (sweep_failed now max_attempts l jobs q).1.visible ≡ true
  unfolding sweep_failed send
  sweep_failed_wakes [] jobs q j h within = ground arith
  sweep_failed_wakes (x ∷ xs) jobs q j h within = elim (Bool-cases (str_eq x.id k)) [
    | inl e ↦
        let not_spent : leb max_attempts x.attempts ≡ false = ground arith in
        rw not_spent (
          sweep_failed_keeps xs jobs (send x.id q)
            (has_message-send k x.id q.visible ∙ ground arith))
    | inr e ↦
        let found : get_ingest_job k xs ≡ some j = ground arith in
        elim (Bool-cases (leb max_attempts x.attempts)) [
          | inl y ↦ rw y (
              sweep_failed_wakes xs (finish_ingest_job now x.id dead x.error jobs) q j found within)
          | inr n ↦ rw n (sweep_failed_wakes xs jobs (send x.id q) j found within)
        ]
  ]

abbrev is_failed : Option IngestJob → Bool
is_failed none = false
is_failed (some j) = status_eq j.status failed

left_failed :
    (now max_attempts : ℕ) (o : Option IngestJob) (j : IngestJob)
    → on_found (closed now max_attempts) o ≡ some j
    → status_eq j.status failed ≡ true
    → (i : IngestJob) × (with_status failed o ≡ some i) × (leb max_attempts i.attempts ≡ false)
left_failed now max_attempts none j h f = ground arith
left_failed now max_attempts (some i) j h f = elim (Bool-cases (status_eq i.status failed)) [
  | inl y ↦ elim (Bool-cases (leb max_attempts i.attempts)) [
    | inl spent ↦ absurd (let wrong : false ≡ true = ap (is_failed) (rw (y, spent) at h) ∙ f in cc)
    | inr within ↦ (i, rw y refl, within)
  ]
  | inr n ↦ absurd (let wrong : false ≡ true = sym n ∙ ap (is_failed) (rw n at h) ∙ f in cc)
]

-- After a sweep of a table with unique ids, every job that is FAILED has a message that a worker can
-- receive.
pub failed_are_woken :
    (now stale_queued stale_processing max_attempts : ℕ) (jobs : Jobs) (q : JobQueue) (k : String)
    (j : IngestJob)
    → HasUniqueIds jobs
    → get_ingest_job k (run_sweep now stale_queued stale_processing max_attempts jobs q).0 ≡ some j
    → status_eq j.status failed ≡ true
    → has_message k (run_sweep now stale_queued stale_processing max_attempts jobs q).1.visible
      ≡ true
unfolding run_sweep
failed_are_woken now stale_queued stale_processing max_attempts jobs q k j u h f =
    let jobs2 =
      (sweep_processing now stale_processing (list_ingest_jobs_by_status processing jobs) jobs).0 in
    let u2 =
      sweep_processing-HasUniqueIds now stale_processing
        (list_ingest_jobs_by_status processing jobs) jobs u in
    let q1 = (sweep_queued now stale_queued (list_ingest_jobs_by_status queued jobs) q).0 in
    let (i, found, within) =
      left_failed now max_attempts (get_ingest_job k jobs2) j
        (sym (get-after_failed now max_attempts jobs2 q1 k u2) ∙ h) f in
    sweep_failed_wakes now max_attempts k (list_ingest_jobs_by_status failed jobs2) jobs2 q1 i
      (get-list_ingest_jobs_by_status failed k jobs2 u2 ∙ found) within
