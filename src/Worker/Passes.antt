-- ===== src/Worker/Passes.antt =====
-- Each pass of the sweep over its list, row by row.
use gen_ai_backend.Prelude.{
  ℕ, ◌-◌, String, str_eq, eq_iff, ◌≡◌, refl, sym, ap, ◌∙◌, Bool, Bool-cases, inl, inr, Option, none,
  some, [], ◌∷◌, arith, if◌then◌else◌, ltb, leb,
}
use gen_ai_backend.IngestJobs.{
  Status, queued, processing, failed, dead, JobError, presumed_dead, IngestJob, Jobs,
  get_ingest_job, finish_row, finish_ingest_job, list_ingest_jobs_by_status,
}
use gen_ai_backend.IngestJobs.Lookup.{HasUniqueIds}
use gen_ai_backend.IngestJobs.Claim.{finish-HasUniqueIds, get-finish}
use gen_ai_backend.JobQueue.{JobQueue, send}
use gen_ai_backend.Worker.{started, sweep_queued, sweep_processing, sweep_failed, run_sweep}

abbrev pub on_found : (IngestJob → IngestJob) → Option IngestJob → Option IngestJob
on_found f none = none
on_found f (some j) = some (f j)

-- What a pass does to a row of the table, by the row of the same id in its list.
abbrev pub listed :
    (IngestJob → Bool)
    → (IngestJob → IngestJob → IngestJob)
    → Option IngestJob
    → Option IngestJob
    → Option IngestJob
listed p f none found = found
listed p f (some j) found = if p j then on_found (f j) found else found

abbrev pub is_stale : ℕ → ℕ → IngestJob → Bool
is_stale now stale j = ltb stale (now - started j)

abbrev pub is_spent : ℕ → IngestJob → Bool
is_spent max_attempts j = leb max_attempts j.attempts

get-finish_on :
    (now : ℕ) (id k : String) (s : Status) (e : Option JobError) (js : Jobs)
    → get_ingest_job k (finish_ingest_job now id s e js) ≡ (
        if str_eq id k
        then on_found (finish_row now s e) (get_ingest_job k js)
        else get_ingest_job k js)
get-finish_on now id k s e js = ground (arith, get-finish now id k s e js)

listed_step :
    (p : IngestJob → Bool) (f : IngestJob → IngestJob → IngestJob) (k : String) (j : IngestJob)
    (js jobs next : Jobs) (swept : Option IngestJob)
    → HasUniqueIds (j ∷ js)
    → get_ingest_job k next ≡ (
        if p j
        then (if str_eq j.id k
            then on_found (f j) (get_ingest_job k jobs)
            else get_ingest_job k jobs)
        else get_ingest_job k jobs)
    → swept ≡ listed p f (get_ingest_job k js) (get_ingest_job k next)
    → swept ≡ listed p f (get_ingest_job k (j ∷ js)) (get_ingest_job k jobs)
listed_step p f k j js jobs next swept u hn h = elim (Bool-cases (str_eq j.id k)) [
  | inl e ↦
      let free : get_ingest_job k js ≡ none =
        ap (λ i. get_ingest_job i js) (sym ((eq_iff j.id k).0 e)) ∙ u.0 in
      h ∙ rw (free, e) (hn ∙ rw e refl)
  | inr e ↦ h ∙ rw (hn, e) (elim (Bool-cases (p j)) [ inl y ↦ rw y refl | inr n ↦ rw n refl ])
]

pub get-sweep_processing :
    (now stale : ℕ) (k : String) (l jobs : Jobs)
    → HasUniqueIds l
    → get_ingest_job k (sweep_processing now stale l jobs).0
      ≡ listed
          (is_stale now stale)
          (λ j. finish_row now failed (some presumed_dead))
          (get_ingest_job k l)
          (get_ingest_job k jobs)
unfolding sweep_processing
get-sweep_processing now stale k [] jobs u = refl
get-sweep_processing now stale k (j ∷ js) jobs u = elim (Bool-cases (is_stale now stale j)) [
  | inl y ↦
      let next = finish_ingest_job now j.id failed (some presumed_dead) jobs in
      rw y (
        listed_step (is_stale now stale) (λ j. finish_row now failed (some presumed_dead)) k j js
          jobs next (get_ingest_job k (sweep_processing now stale js next).0) u
          (get-finish_on now j.id k failed (some presumed_dead) jobs ∙ rw y refl)
          (get-sweep_processing now stale k js next u.1))
  | inr n ↦ rw n (
      listed_step (is_stale now stale) (λ j. finish_row now failed (some presumed_dead)) k j js jobs
        jobs (get_ingest_job k (sweep_processing now stale js jobs).0) u (rw n refl)
        (get-sweep_processing now stale k js jobs u.1))
]

pub get-sweep_failed :
    (now max_attempts : ℕ) (k : String) (l jobs : Jobs) (q : JobQueue)
    → HasUniqueIds l
    → get_ingest_job k (sweep_failed now max_attempts l jobs q).0
      ≡ listed
          (is_spent max_attempts)
          (λ j. finish_row now dead j.error)
          (get_ingest_job k l)
          (get_ingest_job k jobs)
unfolding sweep_failed
get-sweep_failed now max_attempts k [] jobs q u = refl
get-sweep_failed now max_attempts k (j ∷ js) jobs q u =
    elim (Bool-cases (is_spent max_attempts j)) [
      | inl y ↦
          let next = finish_ingest_job now j.id dead j.error jobs in
          rw y (
            listed_step (is_spent max_attempts) (λ j. finish_row now dead j.error) k j js jobs next
              (get_ingest_job k (sweep_failed now max_attempts js next q).0) u
              (get-finish_on now j.id k dead j.error jobs ∙ rw y refl)
              (get-sweep_failed now max_attempts k js next q u.1))
      | inr n ↦ rw n (
          listed_step (is_spent max_attempts) (λ j. finish_row now dead j.error) k j js jobs jobs
            (get_ingest_job k (sweep_failed now max_attempts js jobs (send j.id q)).0) u (rw n refl)
            (get-sweep_failed now max_attempts k js jobs (send j.id q) u.1))
    ]

pub sweep_processing-HasUniqueIds :
    (now stale : ℕ) (l jobs : Jobs)
    → HasUniqueIds jobs
    → HasUniqueIds (sweep_processing now stale l jobs).0
unfolding sweep_processing
sweep_processing-HasUniqueIds now stale [] jobs u = u
sweep_processing-HasUniqueIds now stale (j ∷ js) jobs u = elim (Bool-cases (is_stale now stale j)) [
  | inl y ↦ rw y (
      sweep_processing-HasUniqueIds now stale js
        (finish_ingest_job now j.id failed (some presumed_dead) jobs)
        (finish-HasUniqueIds now j.id failed (some presumed_dead) jobs u))
  | inr n ↦ rw n (sweep_processing-HasUniqueIds now stale js jobs u)
]

sweep_failed-HasUniqueIds :
    (now max_attempts : ℕ) (l jobs : Jobs) (q : JobQueue)
    → HasUniqueIds jobs
    → HasUniqueIds (sweep_failed now max_attempts l jobs q).0
unfolding sweep_failed
sweep_failed-HasUniqueIds now max_attempts [] jobs q u = u
sweep_failed-HasUniqueIds now max_attempts (j ∷ js) jobs q u =
    elim (Bool-cases (is_spent max_attempts j)) [
      | inl y ↦ rw y (
          sweep_failed-HasUniqueIds now max_attempts js
            (finish_ingest_job now j.id dead j.error jobs) q
            (finish-HasUniqueIds now j.id dead j.error jobs u))
      | inr n ↦ rw n (sweep_failed-HasUniqueIds now max_attempts js jobs (send j.id q) u)
    ]

pub run_sweep-HasUniqueIds :
    (now stale_queued stale_processing max_attempts : ℕ) (jobs : Jobs) (q : JobQueue)
    → HasUniqueIds jobs
    → HasUniqueIds (run_sweep now stale_queued stale_processing max_attempts jobs q).0
unfolding run_sweep
run_sweep-HasUniqueIds now stale_queued stale_processing max_attempts jobs q u =
    let jobs2 =
      (sweep_processing now stale_processing (list_ingest_jobs_by_status processing jobs) jobs).0 in
    sweep_failed-HasUniqueIds now max_attempts (list_ingest_jobs_by_status failed jobs2) jobs2
      (sweep_queued now stale_queued (list_ingest_jobs_by_status queued jobs) q).0
      (sweep_processing-HasUniqueIds now stale_processing
        (list_ingest_jobs_by_status processing jobs) jobs u)
