-- ===== src/Worker/Budget.antt =====
-- A delivery keeps every job within the retry budget.
use gen_ai_backend.Prelude.{
  ℕ, ◌+◌, ◌≤◌, String, str_eq, eq_iff, ◌≡◌, refl, sym, ap, ◌∙◌, Bool, true, false, Bool-cases, inl,
  inr, ◌&&◌, ◌==◌, Option, none, some, arith, if◌then◌else◌, ltb, leb,
}
use gen_ai_backend.Prelude.Text.{Text}
use gen_ai_backend.Errors.{Raised, Attempt, returned, raised, is_transient}
use gen_ai_backend.PolicyStore.{Tables}
use gen_ai_backend.PolicyIngest.{IngestResult, ingest}
use gen_ai_backend.IngestJobs.{
  Status, queued, processing, done, failed, dead, JobError, exception, IngestJob, Jobs,
  get_ingest_job, is_claimable, claim_row, claim_ingest_job, finish_ingest_job,
}
use gen_ai_backend.IngestJobs.Lookup.{HasUniqueIds, update_found}
use gen_ai_backend.IngestJobs.Claim.{claim-HasUniqueIds, finish-HasUniqueIds, get-finish, get-claim}
use gen_ai_backend.JobQueue.{QueueMessage}
use gen_ai_backend.Worker.{
  World, failure_status, request_of, record_outcome, work, process_one_message,
}

-- A QUEUED job has made no attempt, a FAILED one has an attempt left, none has made more than the
-- budget.
abbrev pub attempts_ok : ℕ → Status → ℕ → Bool
attempts_ok max queued n = n == 0
attempts_ok max failed n = ltb n max
attempts_ok max _ n = leb n max

abbrev pub found_ok : ℕ → Option IngestJob → Bool
found_ok max none = true
found_ok max (some j) = attempts_ok max j.status j.attempts

pub record WithinBudget (max_attempts : ℕ) (jobs : Jobs) : Type 0 where
  pub unique : HasUniqueIds jobs
  pub each : (k : String) → found_ok max_attempts (get_ingest_job k jobs) ≡ true

claimed_ok :
    (max now n : ℕ) (s : Status)
    → 1 ≤ max
    → attempts_ok max s n ≡ true
    → is_claimable s ≡ true
    → leb (n + 1) max ≡ true
claimed_ok max now n queued b h c = ground arith
claimed_ok max now n failed b h c = ground arith
claimed_ok max now n processing b h c = ground arith
claimed_ok max now n done b h c = ground arith
claimed_ok max now n dead b h c = ground arith

claim_found_ok :
    (max now : ℕ) (o : Option IngestJob)
    → 1 ≤ max
    → found_ok max o ≡ true
    → found_ok max (update_found (λ j. is_claimable j.status) (claim_row now) o) ≡ true
claim_found_ok max now none b h = refl
claim_found_ok max now (some j) b h = ground (arith, claimed_ok max now j.attempts j.status b h)

if_ok :
    (b : Bool) (max : ℕ) (o p : Option IngestJob)
    → found_ok max o ≡ true
    → found_ok max p ≡ true
    → found_ok max (if b then o else p) ≡ true
if_ok true max o p ho hp = ho
if_ok false max o p ho hp = hp

claim-WithinBudget :
    (max now : ℕ) (id : String) (jobs : Jobs)
    → 1 ≤ max
    → WithinBudget max jobs
    → WithinBudget max (claim_ingest_job now id jobs).0
claim-WithinBudget max now id jobs b w = record {
  unique = claim-HasUniqueIds now id jobs w.unique;
  each = λ k.
      ap (found_ok max) (get-claim now id k jobs)
      ∙ if_ok (str_eq id k) max
          (update_found (λ j. is_claimable j.status) (claim_row now) (get_ingest_job k jobs))
          (get_ingest_job k jobs) (claim_found_ok max now (get_ingest_job k jobs) b (w.each k))
          (w.each k);
}

finish-WithinBudget :
    (max now : ℕ) (id : String) (s : Status) (e : Option JobError) (jobs : Jobs) (j : IngestJob)
    → get_ingest_job id jobs ≡ some j
    → attempts_ok max s j.attempts ≡ true
    → WithinBudget max jobs
    → WithinBudget max (finish_ingest_job now id s e jobs)
finish-WithinBudget max now id s e jobs j h ok w = record {
  unique = finish-HasUniqueIds now id s e jobs w.unique;
  each = λ k. ap (found_ok max) (get-finish now id k s e jobs) ∙ elim (Bool-cases (str_eq id k)) [
    | inl y ↦
        let found : get_ingest_job k jobs ≡ some j =
          ap (λ i. get_ingest_job i jobs) (sym ((eq_iff id k).0 y)) ∙ h in
        rw (y, found) ok
    | inr n ↦ rw n (w.each k)
  ];
}

-- A claimed job, whatever its status, has made no more than the budget's attempts.
pub spent_bound : (max n : ℕ) (s : Status) → 1 ≤ max → attempts_ok max s n ≡ true → leb n max ≡ true
spent_bound max n queued b h = ground arith
spent_bound max n failed b h = ground arith
spent_bound max n processing b h = h
spent_bound max n done b h = h
spent_bound max n dead b h = h

failure_ok :
    (max n : ℕ) (e : Raised) → leb n max ≡ true → attempts_ok max (failure_status max n e) n ≡ true
unfolding failure_status
failure_ok max n e h = elim (Bool-cases (is_transient e && ltb n max)) [
  | inl y ↦ rw y (ground arith)
  | inr no_retry ↦ rw no_retry h
]

pub within :
    (max : ℕ) (id : String) (jobs : Jobs) (j : IngestJob)
    → 1 ≤ max
    → get_ingest_job id jobs ≡ some j
    → WithinBudget max jobs
    → leb j.attempts max ≡ true
within max id jobs j some_attempt h b =
    spent_bound max j.attempts j.status some_attempt (ap (found_ok max) (sym h) ∙ b.each id)

module _ {V : Type 0} (sha256 : Text → String) (session_usable : Raised → Bool) (max_attempts : ℕ)
    (some_attempt : 1 ≤ max_attempts) where
  record_outcome-WithinBudget :
      (now : ℕ) (embed : ℕ → Text → Attempt V) (m : QueueMessage) (j : IngestJob) (w : World V)
      (r : Tables V × Attempt IngestResult)
      → get_ingest_job m.job_id w.jobs ≡ some j
      → WithinBudget max_attempts w.jobs
      → WithinBudget max_attempts
          (record_outcome sha256 session_usable now embed max_attempts m j w r).0.jobs
  record_outcome-WithinBudget now embed m j w (t, returned r) h b =
      finish-WithinBudget max_attempts now m.job_id done none w.jobs j h
        (within max_attempts m.job_id w.jobs j some_attempt h b) b
  record_outcome-WithinBudget now embed m j w (t, raised e) h b =
      elim (Bool-cases (session_usable e)) [
        | inl y ↦ rw y (
            finish-WithinBudget max_attempts now m.job_id (failure_status max_attempts j.attempts e)
              (some (exception e)) w.jobs j h
              (failure_ok max_attempts j.attempts e
                (within max_attempts m.job_id w.jobs j some_attempt h b))
              b)
        | inr n ↦ rw n b
      ]

  work-WithinBudget :
      (now : ℕ) (embed : ℕ → Text → Attempt V) (m : QueueMessage) (w : World V)
      (o : Option IngestJob)
      → get_ingest_job m.job_id w.jobs ≡ o
      → WithinBudget max_attempts w.jobs
      → WithinBudget max_attempts (work sha256 session_usable now embed max_attempts m w o).0.jobs
  work-WithinBudget now embed m w none h b = b
  work-WithinBudget now embed m w (some j) h b =
      record_outcome-WithinBudget now embed m j w (ingest sha256 now embed (request_of j) w.tables)
        h b

  pub process-WithinBudget :
      (now : ℕ) (embed : ℕ → Text → Attempt V) (m : QueueMessage) (w : World V)
      → WithinBudget max_attempts w.jobs
      → WithinBudget max_attempts
          (process_one_message sha256 session_usable now embed max_attempts m w).0.jobs
  unfolding process_one_message
  process-WithinBudget now embed m w b =
      let claimed = (claim_ingest_job now m.job_id w.jobs).0 in
      let b' = claim-WithinBudget max_attempts now m.job_id w.jobs some_attempt b in
      elim (Bool-cases (claim_ingest_job now m.job_id w.jobs).1) [
        | inl y ↦ rw y (
            work-WithinBudget now embed m (record w { jobs = claimed })
              (get_ingest_job m.job_id claimed) refl b')
        | inr n ↦ rw n b'
      ]
