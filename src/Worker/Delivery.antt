-- ===== src/Worker/Delivery.antt =====
-- What one delivery does to the job, the documents and the queue.
use gen_ai_backend.Prelude.{
  ℕ, ◌+◌, String, str_eq, ◌≡◌, refl, ◌∙◌, Bool, true, false, Option, none, some, arith,
  if◌then◌else◌, ltb,
}
use gen_ai_backend.Errors.{Raised, Attempt, returned, raised, is_transient}
use gen_ai_backend.Prelude.Text.{Text}
use gen_ai_backend.PolicyStore.{Tables}
use gen_ai_backend.PolicyIngest.{IngestResult, ingest}
use gen_ai_backend.IngestJobs.{
  Status, done, failed, dead, JobError, exception, IngestJob, get_ingest_job, is_claimable,
  claim_row, claim_ingest_job, finish_row,
}
use gen_ai_backend.IngestJobs.Lookup.{HasUniqueIds}
use gen_ai_backend.IngestJobs.Claim.{
  claim-HasUniqueIds, finish-HasUniqueIds, get-finish, get-claim, get-finish_self, get-claim_self,
  is_found_claimable, claim_wins, claim_loses,
}
use gen_ai_backend.JobQueue.{QueueMessage, delete}
use gen_ai_backend.Worker.{
  World, dropped, finished, request_of, failure_status, acknowledge, write_outcome, record_outcome,
  process_one_message,
}

-- The documented verdict: DONE, FAILED for a transient error within the budget, DEAD for the rest.
abbrev verdict : ℕ → ℕ → Attempt IngestResult → Status
verdict max_attempts attempts (returned r) = done
verdict max_attempts attempts (raised e) =
    if is_transient e then (if ltb attempts max_attempts then failed else dead) else dead

abbrev error_of : Attempt IngestResult → Option JobError
error_of (returned r) = none
error_of (raised e) = some (exception e)

abbrev stays_usable : (Raised → Bool) → Attempt IngestResult → Bool
stays_usable session_usable (returned r) = true
stays_usable session_usable (raised e) = session_usable e

module _ {V : Type 0} (sha256 : Text → String) (session_usable : Raised → Bool) (now : ℕ)
    (embed : ℕ → Text → Attempt V) (max_attempts : ℕ) where
  settled :
      (m : QueueMessage) (j : IngestJob) (w : World V) (t : Tables V) (a : Attempt IngestResult)
      → stays_usable session_usable a ≡ true
      → record_outcome sha256 session_usable now embed max_attempts m j w (t, a)
        ≡ write_outcome now m
            (verdict max_attempts j.attempts a)
            (error_of a)
            (record w { tables = t })
  unfolding failure_status
  settled m j w t (returned r) u = refl
  settled m j w t (raised e) u = ground arith

  claimed_delivery :
      (m : QueueMessage) (w : World V) (j : IngestJob)
      → HasUniqueIds w.jobs
      → get_ingest_job m.job_id w.jobs ≡ some j
      → is_claimable j.status ≡ true
      → stays_usable session_usable (ingest sha256 now embed (request_of j) w.tables).1 ≡ true
      → let (tables, answer) = ingest sha256 now embed (request_of j) w.tables in
        process_one_message sha256 session_usable now embed max_attempts m w
        ≡ write_outcome now m
            (verdict max_attempts (j.attempts + 1) answer)
            (error_of answer)
            (record w { jobs = (claim_ingest_job now m.job_id w.jobs).0; tables = tables })
  unfolding process_one_message
  claimed_delivery m w j u h c usable =
      let w' : World V = record w { jobs = (claim_ingest_job now m.job_id w.jobs).0 } in
      let r = ingest sha256 now embed (request_of j) w.tables in
      let won : (claim_ingest_job now m.job_id w.jobs).1 ≡ true =
        claim_wins now m.job_id w.jobs u ∙ rw (h, c) refl in
      rw (won, get-claim_self now m.job_id w.jobs j h c)
        (settled m (claim_row now j) w' r.0 r.1 usable)

  -- A delivery of a claimable job whose ingest leaves the session usable, in a table with unique
  -- ids: the job's row is claimed once and ends in the documented verdict on the ingest's answer,
  -- counted with this attempt; the documents are those the ingest left; the message is acknowledged;
  -- every other job keeps its row.
  pub delivery_settles :
      (m : QueueMessage) (w : World V) (j : IngestJob) (other : String)
      → HasUniqueIds w.jobs
      → get_ingest_job m.job_id w.jobs ≡ some j
      → is_claimable j.status ≡ true
      → str_eq m.job_id other ≡ false
      → stays_usable session_usable (ingest sha256 now embed (request_of j) w.tables).1 ≡ true
      → let (tables, answer) = ingest sha256 now embed (request_of j) w.tables in
        let (w', o) = process_one_message sha256 session_usable now embed max_attempts m w in
        let s = verdict max_attempts (j.attempts + 1) answer in
        (o ≡ finished s)
        × (get_ingest_job m.job_id w'.jobs
            ≡ some (finish_row now s (error_of answer) (claim_row now j)))
        × (w'.tables ≡ tables)
        × (w'.queue ≡ delete m w.queue)
        × (get_ingest_job other w'.jobs ≡ get_ingest_job other w.jobs)
  delivery_settles m w j other u h c ne usable =
      let answer = (ingest sha256 now embed (request_of j) w.tables).1 in
      let s = verdict max_attempts (j.attempts + 1) answer in
      let claimed = (claim_ingest_job now m.job_id w.jobs).0 in
      rw (claimed_delivery m w j u h c usable) (
        refl,
        get-finish_self now m.job_id s (error_of answer) claimed (claim_row now j)
            (get-claim_self now m.job_id w.jobs j h c),
        refl,
        refl,
        get-finish now m.job_id other s (error_of answer) claimed
            ∙ rw ne (get-claim now m.job_id other w.jobs ∙ rw ne refl),
      )

  -- A delivery of a job that is not there or cannot be claimed, in a table with unique ids, is
  -- acknowledged and changes nothing else.
  pub duplicate_dropped :
      (m : QueueMessage) (w : World V)
      → HasUniqueIds w.jobs
      → is_found_claimable (get_ingest_job m.job_id w.jobs) ≡ false
      → process_one_message sha256 session_usable now embed max_attempts m w
        ≡ (acknowledge m w, dropped)
  unfolding process_one_message
  duplicate_dropped m w u h = rw (claim_loses now m.job_id w.jobs u h) refl

-- Once a delivery, in a table with unique ids and with an ingest that leaves the session usable, has
-- brought a job to DONE or DEAD, the next delivery of the same job, by any worker at any time, is
-- dropped: the jobs and the documents stay as the first delivery left them.
pub redelivery_harmless :
    {V : Type 0} (sha256 : Text → String) (session_usable : Raised → Bool) (now later : ℕ)
    (embed embed' : ℕ → Text → Attempt V) (max_attempts : ℕ) (m again : QueueMessage) (w : World V)
    (j : IngestJob)
    → HasUniqueIds w.jobs
    → get_ingest_job m.job_id w.jobs ≡ some j
    → is_claimable j.status ≡ true
    → stays_usable session_usable (ingest sha256 now embed (request_of j) w.tables).1 ≡ true
    → again.job_id ≡ m.job_id
    → is_claimable
        (verdict max_attempts (j.attempts + 1) (ingest sha256 now embed (request_of j) w.tables).1)
      ≡ false
    → let w' = (process_one_message sha256 session_usable now embed max_attempts m w).0 in
      process_one_message sha256 session_usable later embed' max_attempts again w'
      ≡ (acknowledge again w', dropped)
redelivery_harmless sha256 session_usable now later embed embed' max_attempts m again w j u h c
      usable same closed =
    let answer = (ingest sha256 now embed (request_of j) w.tables).1 in
    let s = verdict max_attempts (j.attempts + 1) answer in
    let claimed = (claim_ingest_job now m.job_id w.jobs).0 in
    rw (claimed_delivery sha256 session_usable now embed max_attempts m w j u h c usable) (
      duplicate_dropped sha256 session_usable later embed' max_attempts again
        (write_outcome now m s (error_of answer) (record w {
          jobs = claimed;
          tables = (ingest sha256 now embed (request_of j) w.tables).0;
        })).0
        (finish-HasUniqueIds now m.job_id s (error_of answer) claimed
          (claim-HasUniqueIds now m.job_id w.jobs u))
        (rw
          (
            same,
            get-finish_self now m.job_id s (error_of answer) claimed (claim_row now j)
                (get-claim_self now m.job_id w.jobs j h c),
          )
          closed))
