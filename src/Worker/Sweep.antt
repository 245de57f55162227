-- ===== src/Worker/Sweep.antt =====
-- The sweep does to each job what the recovery rules say, and wakes each job that it leaves FAILED.
use gen_ai_backend.Prelude.{
  ℕ, ◌-◌, String, ◌≡◌, refl, ap, ◌∙◌, Option, none, some, arith, if◌then◌else◌, ltb, leb,
}
use gen_ai_backend.IngestJobs.{
  queued, processing, failed, dead, presumed_dead, IngestJob, Jobs, get_ingest_job, finish_row,
  status_eq, list_ingest_jobs_by_status,
}
use gen_ai_backend.IngestJobs.Lookup.{HasUniqueIds}
use gen_ai_backend.IngestJobs.Listing.{
  with_status, get-list_ingest_jobs_by_status, list_ingest_jobs_by_status-HasUniqueIds,
}
use gen_ai_backend.JobQueue.{JobQueue}
use gen_ai_backend.Worker.{started, sweep_queued, sweep_processing, sweep_failed, run_sweep}
use gen_ai_backend.Worker.Passes.{
  on_found, get-sweep_failed, get-sweep_processing, is_spent, is_stale, listed,
  sweep_processing-HasUniqueIds,
}

-- The documented decision on one row: a PROCESSING row that started longer ago than the limit counts
-- as FAILED, and a FAILED row that has spent its attempts becomes DEAD, with its error kept.
abbrev pub presumed : ℕ → ℕ → IngestJob → IngestJob
presumed now stale j =
    if status_eq j.status processing
    then (if ltb stale (now - started j) then finish_row now failed (some presumed_dead) j else j)
    else j

abbrev pub closed : ℕ → ℕ → IngestJob → IngestJob
closed now max_attempts j =
    if status_eq j.status failed
    then (if leb max_attempts j.attempts then finish_row now dead j.error j else j)
    else j

pass_processing :
    (now stale : ℕ) (o : Option IngestJob)
    → listed
        (is_stale now stale)
        (λ j. finish_row now failed (some presumed_dead))
        (with_status processing o)
        o
      ≡ on_found (presumed now stale) o
pass_processing now stale none = refl
pass_processing now stale (some j) = ground arith

pass_failed :
    (now max_attempts : ℕ) (o : Option IngestJob)
    → listed (is_spent max_attempts) (λ j. finish_row now dead j.error) (with_status failed o) o
      ≡ on_found (closed now max_attempts) o
pass_failed now max_attempts none = refl
pass_failed now max_attempts (some j) = ground arith

twice :
    (f g : IngestJob → IngestJob) (o : Option IngestJob)
    → on_found g (on_found f o) ≡ on_found (λ j. g (f j)) o
twice f g none = refl
twice f g (some j) = refl

get-after_processing :
    (now stale : ℕ) (jobs : Jobs) (k : String)
    → HasUniqueIds jobs
    → get_ingest_job k
        (sweep_processing now stale (list_ingest_jobs_by_status processing jobs) jobs).0
      ≡ on_found (presumed now stale) (get_ingest_job k jobs)
get-after_processing now stale jobs k u =
    let stuck = list_ingest_jobs_by_status processing jobs in
    let rows : listed (is_stale now stale) (λ j. finish_row now failed (some presumed_dead))
          (get_ingest_job k stuck) (get_ingest_job k jobs)
        ≡ on_found (presumed now stale) (get_ingest_job k jobs) =
      rw (get-list_ingest_jobs_by_status processing k jobs u)
        (pass_processing now stale (get_ingest_job k jobs)) in
    get-sweep_processing now stale k stuck jobs
      (list_ingest_jobs_by_status-HasUniqueIds processing jobs u)
    ∙ rows

pub get-after_failed :
    (now max_attempts : ℕ) (jobs : Jobs) (q : JobQueue) (k : String)
    → HasUniqueIds jobs
    → get_ingest_job k
        (sweep_failed now max_attempts (list_ingest_jobs_by_status failed jobs) jobs q).0
      ≡ on_found (closed now max_attempts) (get_ingest_job k jobs)
get-after_failed now max_attempts jobs q k u =
    let l = list_ingest_jobs_by_status failed jobs in
    let rows : listed (is_spent max_attempts) (λ j. finish_row now dead j.error)
          (get_ingest_job k l) (get_ingest_job k jobs)
        ≡ on_found (closed now max_attempts) (get_ingest_job k jobs) =
      rw (get-list_ingest_jobs_by_status failed k jobs u)
        (pass_failed now max_attempts (get_ingest_job k jobs)) in
    get-sweep_failed now max_attempts k l jobs q
      (list_ingest_jobs_by_status-HasUniqueIds failed jobs u)
    ∙ rows

-- A sweep of a table with unique ids takes every row through the documented decision, a PROCESSING
-- row that it presumes dead through both rules in the same sweep, and adds and removes none.
pub sweep_exact :
    (now stale_queued stale_processing max_attempts : ℕ) (jobs : Jobs) (q : JobQueue) (k : String)
    → HasUniqueIds jobs
    → get_ingest_job k (run_sweep now stale_queued stale_processing max_attempts jobs q).0
      ≡ on_found
          (λ j. closed now max_attempts (presumed now stale_processing j))
          (get_ingest_job k jobs)
unfolding run_sweep
sweep_exact now stale_queued stale_processing max_attempts jobs q k u =
    let jobs2 =
      (sweep_processing now stale_processing (list_ingest_jobs_by_status processing jobs) jobs).0 in
    let u2 =
      sweep_processing-HasUniqueIds now stale_processing
        (list_ingest_jobs_by_status processing jobs) jobs u in
    let q1 = (sweep_queued now stale_queued (list_ingest_jobs_by_status queued jobs) q).0 in
    get-after_failed now max_attempts jobs2 q1 k u2
    ∙ ap (on_found (closed now max_attempts)) (get-after_processing now stale_processing jobs k u)
    ∙ twice (presumed now stale_processing) (closed now max_attempts) (get_ingest_job k jobs)
