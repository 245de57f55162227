-- ===== src/Worker/Retries.antt =====
-- The retry budget over every sequence of submissions, deliveries and sweeps.
use gen_ai_backend.Prelude.{
  ℕ, ◌≤◌, String, str_eq, eq_iff, ◌≡◌, refl, sym, ap, ◌∙◌, Bool, true, Bool-cases, inl, inr, Option,
  none, some, List, [], ◌∷◌, ◌++◌, arith, if◌then◌else◌, leb,
}
use gen_ai_backend.Prelude.Text.{Text}
use gen_ai_backend.Errors.{Raised, Attempt}
use gen_ai_backend.IngestJobs.{queued, IngestJob, Jobs, get_ingest_job, create_ingest_job}
use gen_ai_backend.IngestJobs.Lookup.{HasUniqueIds}
use gen_ai_backend.JobQueue.{QueueMessage, send}
use gen_ai_backend.Worker.{World, process_one_message, run_sweep}
use gen_ai_backend.Worker.SweepBudget.{sweep-WithinBudget}
use gen_ai_backend.Worker.Budget.{attempts_ok, found_ok, WithinBudget, within, process-WithinBudget}

-- A submission carries the row's values; a delivery carries whatever provider answers it; the sweep
-- its thresholds. Each happens at a time.
pub data Event (V : Type 0) : Type 0 where
  submit : String → String → String → Text → String → Event V
  deliver : (ℕ → Text → Attempt V) → QueueMessage → Event V
  sweep : ℕ → ℕ → Event V

-- The primary key refuses an id that is taken.
abbrev submit_job : ℕ → String → String → String → Text → String → Option IngestJob → Jobs → Jobs
submit_job now id doc_id title content checksum none jobs =
    create_ingest_job now id doc_id title content checksum jobs
submit_job now id doc_id title content checksum (some j) jobs = jobs

get-snoc :
    (k : String) (j : IngestJob) (js : Jobs)
    → get_ingest_job j.id js ≡ none
    → get_ingest_job k (js ++ j ∷ []) ≡ (if str_eq j.id k then some j else get_ingest_job k js)
get-snoc k j [] h = refl
get-snoc k j (x ∷ xs) h =
    ground (arith, get-snoc k j xs, eq_iff x.id k, eq_iff j.id k, eq_iff x.id j.id)

snoc-HasUniqueIds :
    (j : IngestJob) (js : Jobs)
    → get_ingest_job j.id js ≡ none
    → HasUniqueIds js
    → HasUniqueIds (js ++ j ∷ [])
snoc-HasUniqueIds j [] h u = (refl, tt)
snoc-HasUniqueIds j (x ∷ xs) h u = (
  ground (arith, get-snoc x.id j xs, eq_iff x.id j.id, eq_iff j.id x.id, u.0),
  snoc-HasUniqueIds j xs (ground arith) u.1,
)

abbrev new_row : ℕ → String → String → String → Text → String → IngestJob
new_row now id doc_id title content checksum = record {
  id = id;
  doc_id = doc_id;
  title = title;
  content = content;
  checksum = checksum;
  source_uri = none;
  status = queued;
  attempts = 0;
  error = none;
  created_at = now;
  started_at = none;
  finished_at = none;
}

submit-WithinBudget :
    (max now : ℕ) (id doc_id title : String) (content : Text) (checksum : String) (jobs : Jobs)
    (o : Option IngestJob)
    → get_ingest_job id jobs ≡ o
    → WithinBudget max jobs
    → WithinBudget max (submit_job now id doc_id title content checksum o jobs)
unfolding create_ingest_job
submit-WithinBudget max now id doc_id title content checksum jobs (some j) h b = b
submit-WithinBudget max now id doc_id title content checksum jobs none h b =
    let row = new_row now id doc_id title content checksum in
    record {
      unique = snoc-HasUniqueIds row jobs h b.unique;
      each = λ k.
          ap (found_ok max) (get-snoc k row jobs h)
          ∙ elim (Bool-cases (str_eq id k)) [ inl y ↦ rw y refl | inr n ↦ rw n (b.each k) ];
    }

module _ {V : Type 0} (sha256 : Text → String) (session_usable : Raised → Bool)
    (max_attempts : ℕ) where
  abbrev pub step : ℕ × Event V → World V → World V
  step (now, submit id doc_id title content checksum) w = record w {
    jobs = submit_job now id doc_id title content checksum (get_ingest_job id w.jobs) w.jobs;
    queue = send id w.queue;
  }
  step (now, deliver embed m) w =
      (process_one_message sha256 session_usable now embed max_attempts m w).0
  step (now, sweep stale_queued stale_processing) w =
      let (jobs, queue, actions) =
        run_sweep now stale_queued stale_processing max_attempts w.jobs w.queue in
      record w { jobs = jobs; queue = queue }

  unfoldable pub run : List (ℕ × Event V) → World V → World V
  run [] w = w
  run (e ∷ es) w = run es (step e w)

  module _ (some_attempt : 1 ≤ max_attempts) where
    step-WithinBudget :
        (e : ℕ × Event V) (w : World V)
        → WithinBudget max_attempts w.jobs
        → WithinBudget max_attempts (step e w).jobs
    step-WithinBudget (now, submit id doc_id title content checksum) w b =
        submit-WithinBudget max_attempts now id doc_id title content checksum w.jobs
          (get_ingest_job id w.jobs) refl b
    step-WithinBudget (now, deliver embed m) w b =
        process-WithinBudget sha256 session_usable max_attempts some_attempt now embed m w b
    step-WithinBudget (now, sweep stale_queued stale_processing) w b =
        sweep-WithinBudget now stale_queued stale_processing max_attempts w.jobs w.queue
          some_attempt b

    pub run-WithinBudget :
        (es : List (ℕ × Event V)) (w : World V)
        → WithinBudget max_attempts w.jobs
        → WithinBudget max_attempts (run es w).jobs
    unfolding run
    run-WithinBudget [] w b = b
    run-WithinBudget (e ∷ es) w b = run-WithinBudget es (step e w) (step-WithinBudget e w b)

-- With a budget of at least one attempt, in any sequence of submissions, deliveries (duplicates and
-- crashes included) and sweeps from an empty table, each taken as one step, no job has ever made more
-- attempts than the budget, and a job that waits as FAILED has made fewer.
pub attempts_bounded :
    {V : Type 0} (sha256 : Text → String) (session_usable : Raised → Bool) (max_attempts : ℕ)
    (es : List (ℕ × Event V)) (w : World V) (k : String) (j : IngestJob)
    → 1 ≤ max_attempts
    → w.jobs ≡ []
    → get_ingest_job k (run sha256 session_usable max_attempts es w).jobs ≡ some j
    → (j.attempts ≤ max_attempts) × (attempts_ok max_attempts j.status j.attempts ≡ true)
attempts_bounded sha256 session_usable max_attempts es w k j some_attempt start h =
    let empty : WithinBudget max_attempts w.jobs =
      rw start (record { unique = tt; each = λ k. refl }) in
    let b = run-WithinBudget sha256 session_usable max_attempts some_attempt es w empty in
    let most : leb j.attempts max_attempts ≡ true =
      within max_attempts k (run sha256 session_usable max_attempts es w).jobs j some_attempt h b in
    (ground arith, ap (found_ok max_attempts) (sym h) ∙ b.each k)
