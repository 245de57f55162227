-- ===== src/IngestRoute/Intake.antt =====
-- The bound on the backlog.
use gen_ai_backend.Prelude.{
  ℕ, ◌+◌, ◌≤◌, String, Bool, Bool-cases, inl, inr, Option, none, some, [], ◌∷◌, ◌++◌, arith, leb,
}
use gen_ai_backend.Prelude.Text.{Text, is_empty, strip}
use gen_ai_backend.IngestJobs.{
  IngestJob, Jobs, create_ingest_job, count_ingest_backlog, find_ingest_job_by_checksum,
}
use gen_ai_backend.Worker.{World}
use gen_ai_backend.IngestRoute.{
  Submission, is_done, is_active, intake, unless_active, unless_done, policies_ingest_async,
}

backlog_snoc :
    (j : IngestJob) (js : Jobs) → count_ingest_backlog (js ++ j ∷ []) ≤ count_ingest_backlog js + 1
unfolding count_ingest_backlog
backlog_snoc j [] = ground arith
backlog_snoc j (x ∷ xs) = ground (arith, backlog_snoc j xs)

create_backlog :
    (now : ℕ) (id doc_id title : String) (content : Text) (checksum : String) (js : Jobs)
    → count_ingest_backlog (create_ingest_job now id doc_id title content checksum js)
      ≤ count_ingest_backlog js + 1
unfolding create_ingest_job
create_backlog now id doc_id title content checksum js = backlog_snoc _ js

module _ {V : Type 0} (sha256 : Text → String) (max_backlog now : ℕ) (job_id : String)
    (queue_up : Bool) (r : Submission) (w : World V)
    (within : count_ingest_backlog w.jobs ≤ max_backlog) where
  intake_bounded :
      count_ingest_backlog (intake sha256 max_backlog now job_id queue_up r w).0.jobs ≤ max_backlog
  intake_bounded = elim (Bool-cases (leb max_backlog (count_ingest_backlog w.jobs))) [
    | inl y ↦ rw y within
    | inr n ↦ rw n (
        ground
          (arith, create_backlog now job_id r.doc_id r.title r.content (sha256 r.content) w.jobs))
  ]

  active_bounded :
      (o : Option IngestJob)
      → count_ingest_backlog (unless_active sha256 max_backlog now job_id queue_up r w o).0.jobs
        ≤ max_backlog
  active_bounded none = intake_bounded
  active_bounded (some j) = within

  done_bounded :
      (o : Option IngestJob)
      → count_ingest_backlog (unless_done sha256 max_backlog now job_id queue_up r w o).0.jobs
        ≤ max_backlog
  done_bounded none =
      active_bounded (find_ingest_job_by_checksum r.doc_id (sha256 r.content) is_active w.jobs)
  done_bounded (some j) = within

  -- A submission to a backlog within the limit leaves it within the limit, on every branch.
  pub backlog_bounded :
      count_ingest_backlog (policies_ingest_async sha256 max_backlog now job_id queue_up r w).0.jobs
      ≤ max_backlog
  unfolding policies_ingest_async
  backlog_bounded = elim (Bool-cases (is_empty (strip r.content))) [
    | inl y ↦ rw y within
    | inr n ↦
        rw n (done_bounded (find_ingest_job_by_checksum r.doc_id (sha256 r.content) is_done w.jobs))
  ]
