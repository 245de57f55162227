-- ===== src/Worker.antt =====
-- narration-enrichment/src/narration_enrichment/worker.py: one delivery (`process_one_message`), one
-- batch (`run_once`) and the sweep. `session_usable e` says whether the SQLAlchemy session still takes
-- statements after the exception `e` of the ingest, without a rollback. The clock readings are
-- arguments.
pub mod Delivery
pub mod Passes
pub mod Sweep
pub mod Wakeups
pub mod Budget
pub mod SweepBudget
pub mod Retries
pub mod Late
mod Examples
use gen_ai_backend.Prelude.{
  ℕ, ◌+◌, ◌-◌, String, Bool, true, false, ◌&&◌, Option, none, some, List, [], ◌∷◌, leb, ltb,
  if◌then◌else◌,
}
use gen_ai_backend.Prelude.Int.{pos}
use gen_ai_backend.Prelude.Text.{Text}
use gen_ai_backend.Errors.{Raised, Attempt, returned, raised, is_transient}
use gen_ai_backend.PolicyStore.{Tables}
use gen_ai_backend.PolicyIngest.{IngestResult, Request, ingest}
use gen_ai_backend.IngestJobs.{
  Status, queued, processing, done, failed, dead, JobError, exception, presumed_dead, IngestJob,
  Jobs, get_ingest_job, claim_ingest_job, finish_ingest_job, list_ingest_jobs_by_status,
}
use gen_ai_backend.JobQueue.{QueueMessage, JobQueue, send, receive, delete}

pub record World (V : Type 0) : Type 0 where
  pub jobs : Jobs
  pub tables : Tables V
  pub queue : JobQueue

-- `crashed` is an exception out of `process_one_message`.
pub data Outcome : Type 0 where
  dropped crashed : Outcome
  finished : Status → Outcome

abbrev is_crash : Outcome → Bool
is_crash crashed = true
is_crash _ = false

-- The call `ingest(...)` of a job, with the default size and overlap.
abbrev pub request_of : IngestJob → Request
request_of j = record {
  doc_id = j.doc_id;
  title = j.title;
  content = j.content;
  source_uri = j.source_uri;
  chunk_size = pos 500;
  overlap = pos 50;
}

-- FAILED for an exception that is worth a retry within the budget, else DEAD.
pub failure_status : ℕ → ℕ → Raised → Status
failure_status max_attempts attempts e =
    if is_transient e && ltb attempts max_attempts then failed else dead

module _ {V : Type 0} where
  abbrev pub acknowledge : QueueMessage → World V → World V
  acknowledge m w = record w { queue = delete m w.queue }

  abbrev pub write_outcome :
      ℕ → QueueMessage → Status → Option JobError → World V → World V × Outcome
  write_outcome now m s error w = (
    acknowledge m (record w { jobs = finish_ingest_job now m.job_id s error w.jobs }),
    finished s,
  )

module _ {V : Type 0} (sha256 : Text → String) (session_usable : Raised → Bool) (now : ℕ)
    (embed : ℕ → Text → Attempt V) (max_attempts : ℕ) where
  abbrev pub record_outcome :
      QueueMessage → IngestJob → World V → Tables V × Attempt IngestResult → World V × Outcome
  record_outcome m j w (t, returned r) = write_outcome now m done none (record w { tables = t })
  record_outcome m j w (t, raised e) =
      if session_usable e
      then write_outcome now m (failure_status max_attempts j.attempts e) (some (exception e))
          (record w { tables = t })
      else (record w { tables = t }, crashed)

  -- `job.doc_id` of a missing row raises.
  abbrev pub work : QueueMessage → World V → Option IngestJob → World V × Outcome
  work m w none = (w, crashed)
  work m w (some j) = record_outcome m j w (ingest sha256 now embed (request_of j) w.tables)

  unfoldable pub process_one_message : QueueMessage → World V → World V × Outcome
  process_one_message m w =
      let (jobs, claimed) = claim_ingest_job now m.job_id w.jobs in
      let w' : World V = record w { jobs = jobs } in
      if claimed then work m w' (get_ingest_job m.job_id jobs) else (acknowledge m w', dropped)

  -- The loop of `run_once`; a crash leaves the rest of the batch to redelivery.
  unfoldable pub process_all : List QueueMessage → World V → World V × List Outcome
  process_all [] w = (w, [])
  process_all (m ∷ ms) w =
      let (w1, o) = process_one_message m w in
      let (w2, os) = process_all ms w1 in if is_crash o then (w1, o ∷ []) else (w2, o ∷ os)

  unfoldable pub run_once : (ℕ → String × ℕ) → ℕ → World V → World V × List Outcome
  run_once draw max_messages w =
      let (q, ms) = receive now draw max_messages w.queue in process_all ms (record w { queue = q })

pub record Actions : Type 0 where
  pub requeued_stale_queued : ℕ
  pub failed_stale_processing : ℕ
  pub requeued_failed : ℕ
  pub dead_at_budget : ℕ

-- `job.started_at or job.created_at`
abbrev pub started : IngestJob → ℕ
started j = elim j.started_at [ none ↦ j.created_at | some t ↦ t ]

-- The three loops, each over the list of its own query.
pub sweep_queued : ℕ → ℕ → Jobs → JobQueue → JobQueue × ℕ
sweep_queued now stale [] q = (q, 0)
sweep_queued now stale (j ∷ js) q =
    let (sent, n) = sweep_queued now stale js (send j.id q) in
    let kept = sweep_queued now stale js q in
    if ltb stale (now - j.created_at) then (sent, n + 1) else kept

pub sweep_processing : ℕ → ℕ → Jobs → Jobs → Jobs × ℕ
sweep_processing now stale [] jobs = (jobs, 0)
sweep_processing now stale (j ∷ js) jobs =
    let (swept, n) =
      sweep_processing now stale js (finish_ingest_job now j.id failed (some presumed_dead) jobs) in
    let kept = sweep_processing now stale js jobs in
    if ltb stale (now - started j) then (swept, n + 1) else kept

pub sweep_failed : ℕ → ℕ → Jobs → Jobs → JobQueue → Jobs × JobQueue × ℕ × ℕ
sweep_failed now max_attempts [] jobs q = (jobs, q, 0, 0)
sweep_failed now max_attempts (j ∷ js) jobs q =
    let (jobs1, q1, r1, d1) =
      sweep_failed now max_attempts js (finish_ingest_job now j.id dead j.error jobs) q in
    let (jobs2, q2, r2, d2) = sweep_failed now max_attempts js jobs (send j.id q) in
    if leb max_attempts j.attempts then (jobs1, q1, r1, d1 + 1) else (jobs2, q2, r2 + 1, d2)

pub run_sweep : ℕ → ℕ → ℕ → ℕ → Jobs → JobQueue → Jobs × JobQueue × Actions
run_sweep now stale_queued stale_processing max_attempts jobs q =
    let (q1, n1) = sweep_queued now stale_queued (list_ingest_jobs_by_status queued jobs) q in
    let (jobs2, n2) =
      sweep_processing now stale_processing (list_ingest_jobs_by_status processing jobs) jobs in
    let (jobs3, q3, n3, n4) =
      sweep_failed now max_attempts (list_ingest_jobs_by_status failed jobs2) jobs2 q1 in
    (
      jobs3,
      q3,
      record {
        requeued_stale_queued = n1;
        failed_stale_processing = n2;
        requeued_failed = n3;
        dead_at_budget = n4;
      },
    )
