-- ===== src/Worker/Examples.antt =====
-- Deliveries, a crash and sweeps of a small table.
use gen_ai_backend.Prelude.{
  ℕ, ◌≤◌, String, ◌≡◌, refl, Bool, true, false, none, some, List, [], ◌∷◌, arith,
}
use gen_ai_backend.Prelude.Text.{Text, strip, lstrip, rstrip, is_space}
use gen_ai_backend.Errors.{Raised, plain, Attempt, returned, raised, api_error, is_transient}
use gen_ai_backend.Chunker.{chunk, chunk_loop}
use gen_ai_backend.PolicyStore.{get_policy_doc, upsert_policy_doc_with_chunks, insert_chunks}
use gen_ai_backend.PolicyIngest.{ingest, embed_all}
use gen_ai_backend.IngestJobs.{
  done, failed, dead, queued, processing, exception, IngestJob, get_ingest_job, create_ingest_job,
  claim_ingest_job, claim_row, finish_ingest_job, finish_row, list_ingest_jobs_by_status,
}
use gen_ai_backend.JobQueue.{
  QueueMessage, JobQueue, send, delete, receive, receive_loop, requeue_expired,
}
use gen_ai_backend.Worker.{
  World, dropped, finished, acknowledge, process_one_message, process_all, run_once, run_sweep,
  sweep_queued, sweep_processing, sweep_failed, failure_status,
}
use gen_ai_backend.Worker.Delivery.{delivery_settles, redelivery_harmless}
use gen_ai_backend.Worker.Sweep.{presumed, closed, sweep_exact}
use gen_ai_backend.Worker.Wakeups.{has_message, failed_are_woken}
use gen_ai_backend.Worker.Retries.{Event, submit, deliver, sweep, run, attempts_bounded}
use gen_ai_backend.Worker.Late.{late_finish_leaves_done}
use gen_ai_backend.Worker.Budget.{attempts_ok}

abbrev sha256 : Text → String
sha256 text = "sum"

abbrev session_usable : Raised → Bool
session_usable e = is_transient e

abbrev overloaded : ℕ → Text → Attempt ℕ
overloaded i text = raised (plain (api_error 503))

abbrev embed : ℕ → Text → Attempt ℕ
embed i text = returned i

abbrev job : IngestJob
job = record {
  id = "j";
  doc_id = "a";
  title = "A";
  content = 65 ∷ 66 ∷ [];
  checksum = "sum";
  source_uri = none;
  status = queued;
  attempts = 0;
  error = none;
  created_at = 1;
  started_at = none;
  finished_at = none;
}

abbrev stuck : IngestJob
stuck = record job { status = processing; attempts = 1; started_at = some 2 }

abbrev world : World ℕ
world = record {
  jobs = job ∷ record job { id = "k" } ∷ [];
  tables = record { docs = []; chunks = []; next_id = 1 };
  queue = record { visible = "j" ∷ []; in_flight = []; visibility_timeout = 30 };
}

abbrev message : QueueMessage
message = record { job_id = "j"; receipt = "r" }

one_batch :
    (run_once sha256 session_usable 5 embed 3 (λ i. ("r", 5)) 10 world).1 ≡ finished done ∷ []
unfolding run_once process_all process_one_message receive receive_loop requeue_expired
    claim_ingest_job finish_ingest_job ingest get_policy_doc chunk chunk_loop strip lstrip rstrip
    is_space embed_all upsert_policy_doc_with_chunks insert_chunks
one_batch = refl

delivery_settles_example :
    let (w', o) = process_one_message sha256 session_usable 5 overloaded 3 message world in
    (o ≡ finished failed)
    × (get_ingest_job "j" w'.jobs
        ≡ some (finish_row 5 failed (some (exception (plain (api_error 503)))) (claim_row 5 job)))
    × (w'.tables ≡ world.tables)
    × (w'.queue ≡ delete message world.queue)
    × (get_ingest_job "k" w'.jobs ≡ some (record job { id = "k" }))
unfolding ingest get_policy_doc chunk chunk_loop strip lstrip rstrip is_space embed_all is_transient
delivery_settles_example =
    delivery_settles sha256 session_usable 5 overloaded 3 message world job "k" (refl, (refl, tt))
      refl refl refl refl

abbrev busy : World ℕ
busy = record world { jobs = stuck ∷ [] }

redelivery_harmless_example :
    let w' = (process_one_message sha256 session_usable 5 embed 3 message world).0 in
    process_one_message sha256 session_usable 6 overloaded 3 message w'
    ≡ (acknowledge message w', dropped)
unfolding ingest get_policy_doc chunk chunk_loop strip lstrip rstrip is_space embed_all
    upsert_policy_doc_with_chunks insert_chunks
redelivery_harmless_example =
    redelivery_harmless sha256 session_usable 5 6 embed overloaded 3 message message world job
      (refl, (refl, tt)) refl refl refl refl refl

sweep_exact_example :
    get_ingest_job "j" (run_sweep 500 60 300 3 busy.jobs busy.queue).0
    ≡ some (closed 500 3 (presumed 500 300 stuck))
sweep_exact_example = sweep_exact 500 60 300 3 busy.jobs busy.queue "j" (refl, tt)

abbrev empty_queue : JobQueue
empty_queue = record { visible = []; in_flight = []; visibility_timeout = 30 }

failed_are_woken_example :
    has_message "j" (run_sweep 500 60 300 3 busy.jobs empty_queue).1.visible ≡ true
unfolding run_sweep sweep_queued sweep_processing sweep_failed list_ingest_jobs_by_status
    finish_ingest_job
failed_are_woken_example =
    failed_are_woken 500 60 300 3 busy.jobs empty_queue "j" (presumed 500 300 stuck) (refl, tt) refl
      refl

abbrev events : List (ℕ × Event ℕ)
events =
    (1, submit "j" "a" "A" (65 ∷ []) "sum")
    ∷ (2, deliver overloaded message)
    ∷ (3, sweep 60 300)
    ∷ []

attempts_bounded_example : (1 ≤ 1) × (attempts_ok 1 dead 1 ≡ true)
unfolding run process_one_message claim_ingest_job finish_ingest_job create_ingest_job ingest
    get_policy_doc chunk chunk_loop strip lstrip rstrip is_space embed_all is_transient
    failure_status run_sweep sweep_queued sweep_processing sweep_failed list_ingest_jobs_by_status
    send
attempts_bounded_example =
    attempts_bounded sha256 session_usable 1 events (record world { jobs = [] }) "j"
      (record job {
        content = 65 ∷ [];
        status = dead;
        attempts = 1;
        error = some (exception (plain (api_error 503)));
        started_at = some 2;
        finished_at = some 2;
      })
      (omega arith) refl refl

abbrev quiet : JobQueue
quiet = record { visible = []; in_flight = []; visibility_timeout = 30 }

abbrev late_jobs : List IngestJob
late_jobs = job ∷ []

late_finish_leaves_done_example :
    let e = plain (api_error 503) in
    let first = (claim_ingest_job 10 "j" late_jobs).0 in
    let swept = (run_sweep 1000 60 300 5 first quiet).0 in
    let second = claim_ingest_job 1010 "j" swept in
    let finished = finish_ingest_job 1020 "j" done none second.0 in
    let late = finish_ingest_job 1030 "j" (failure_status 5 1 e) (some (exception e)) finished in
    (second.1 ≡ true)
    × (claim_ingest_job 1040 "j" finished ≡ (finished, false))
    × ((claim_ingest_job 1040 "j" late).1 ≡ true)
unfolding is_transient
late_finish_leaves_done_example =
    late_finish_leaves_done 10 1000 1010 1020 1030 1040 60 300 5 "j" (plain (api_error 503))
      late_jobs quiet job (refl, tt) refl refl (omega arith) (omega arith) refl
