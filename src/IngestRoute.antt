-- ===== src/IngestRoute.antt =====
-- narration-enrichment/src/narration_enrichment/main.py: the route `policies_ingest_async`, the intake of
-- ingest jobs. `max_backlog` is the setting ingest_max_backlog, `job_id` the drawn uuid, `queue_up`
-- whether the queue takes the message.
pub mod Intake
mod Examples
use gen_ai_backend.Prelude.{ℕ, String, Bool, true, false, Option, none, some, leb, if◌then◌else◌}
use gen_ai_backend.Prelude.Text.{Text, is_empty, strip}
use gen_ai_backend.IngestJobs.{
  Status, queued, processing, done, IngestJob, create_ingest_job, count_ingest_backlog,
  find_ingest_job_by_checksum,
}
use gen_ai_backend.JobQueue.{send}
use gen_ai_backend.Worker.{World}

pub record Submission : Type 0 where
  pub doc_id : String
  pub title : String
  pub content : Text

-- `IngestAsyncResponse`, or an HTTPException with its status and Retry-After.
pub data Reply : Type 0 where
  accepted : String → String → Status → Bool → Reply
  http : ℕ → Option ℕ → Reply

abbrev pub is_done : Status → Bool
is_done done = true
is_done _ = false

abbrev pub is_active : Status → Bool
is_active queued = true
is_active processing = true
is_active _ = false

module _ {V : Type 0} (sha256 : Text → String) (max_backlog now : ℕ) (job_id : String)
    (queue_up : Bool) where
  -- From the intake valve on: the row is committed, then the message is sent if it can be.
  abbrev pub intake : Submission → World V → World V × Reply
  intake r w = if leb max_backlog (count_ingest_backlog w.jobs) then (w, http 429 (some 60)) else (
    record w {
      jobs = create_ingest_job now job_id r.doc_id r.title r.content (sha256 r.content) w.jobs;
      queue = if queue_up then send job_id w.queue else w.queue;
    },
    accepted job_id r.doc_id queued false,
  )

  abbrev pub unless_active : Submission → World V → Option IngestJob → World V × Reply
  unless_active r w (some active) = (w, accepted active.id active.doc_id active.status false)
  unless_active r w none = intake r w

  abbrev pub unless_done : Submission → World V → Option IngestJob → World V × Reply
  unless_done r w (some j) = (w, accepted j.id j.doc_id done true)
  unless_done r w none =
      unless_active r w (find_ingest_job_by_checksum r.doc_id (sha256 r.content) is_active w.jobs)

  unfoldable pub policies_ingest_async : Submission → World V → World V × Reply
  policies_ingest_async r w =
      if is_empty (strip r.content)
      then (w, http 400 none)
      else unless_done r w (find_ingest_job_by_checksum r.doc_id (sha256 r.content) is_done w.jobs)
