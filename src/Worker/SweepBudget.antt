-- ===== src/Worker/SweepBudget.antt =====
-- A sweep keeps every job within the retry budget.
use gen_ai_backend.Prelude.{
  ℕ, ◌-◌, ◌≤◌, ◌≡◌, refl, ap, ◌∙◌, Bool, true, false, Bool-cases, inl, inr, Option, none, some,
  arith, if◌then◌else◌, ltb, leb,
}
use gen_ai_backend.IngestJobs.{
  Status, queued, processing, done, failed, dead, presumed_dead, IngestJob, Jobs, get_ingest_job,
  finish_row, status_eq,
}
use gen_ai_backend.JobQueue.{JobQueue}
use gen_ai_backend.Worker.{run_sweep, started}
use gen_ai_backend.Worker.Sweep.{presumed, closed, sweep_exact}
use gen_ai_backend.Worker.Passes.{on_found, run_sweep-HasUniqueIds}
use gen_ai_backend.Worker.Budget.{attempts_ok, found_ok, WithinBudget, spent_bound}

is_failed_eq : (s : Status) → status_eq s failed ≡ true → s ≡ failed
is_failed_eq failed h = refl
is_failed_eq queued h = cc
is_failed_eq processing h = cc
is_failed_eq done h = cc
is_failed_eq dead h = cc

abbrev row_ok : ℕ → IngestJob → Bool
row_ok max j = attempts_ok max j.status j.attempts

if_row_ok :
    (b : Bool) (max : ℕ) (x y : IngestJob)
    → (b ≡ true → row_ok max x ≡ true)
    → (b ≡ false → row_ok max y ≡ true)
    → row_ok max (if b then x else y) ≡ true
if_row_ok true max x y hx hy = hx refl
if_row_ok false max x y hx hy = hy refl

closed_ok :
    (now max : ℕ) (j : IngestJob)
    → leb j.attempts max ≡ true
    → (status_eq j.status failed ≡ false → row_ok max j ≡ true)
    → row_ok max (closed now max j) ≡ true
closed_ok now max j most h =
    if_row_ok (status_eq j.status failed) max
      (if leb max j.attempts then finish_row now dead j.error j else j) j
      (λ f.
        if_row_ok (leb max j.attempts) max (finish_row now dead j.error j) j (λ spent. most)
          (λ left. ap (λ s. attempts_ok max s j.attempts) (is_failed_eq j.status f) ∙ ground arith))
      h

swept_row_ok :
    (now stale max : ℕ) (j : IngestJob)
    → 1 ≤ max
    → row_ok max j ≡ true
    → row_ok max (closed now max (presumed now stale j)) ≡ true
swept_row_ok now stale max j b h =
    let most = spent_bound max j.attempts j.status b h in
    elim (Bool-cases (status_eq j.status processing)) [
      | inl y ↦ elim (Bool-cases (ltb stale (now - started j))) [
        | inl old ↦
            rw (y, old)
              (closed_ok now max (finish_row now failed (some presumed_dead) j) most
                (λ f. absurd (let wrong : true ≡ false = f in cc)))
        | inr fresh ↦ rw (y, fresh) (closed_ok now max j most (λ f. h))
      ]
      | inr n ↦ rw n (closed_ok now max j most (λ f. h))
    ]

swept_ok :
    (now stale max : ℕ) (o : Option IngestJob)
    → 1 ≤ max
    → found_ok max o ≡ true
    → found_ok max (on_found (λ j. closed now max (presumed now stale j)) o) ≡ true
swept_ok now stale max none b h = refl
swept_ok now stale max (some j) b h = swept_row_ok now stale max j b h

pub sweep-WithinBudget :
    (now stale_queued stale_processing max_attempts : ℕ) (jobs : Jobs) (q : JobQueue)
    → 1 ≤ max_attempts
    → WithinBudget max_attempts jobs
    → WithinBudget max_attempts (run_sweep now stale_queued stale_processing max_attempts jobs q).0
sweep-WithinBudget now stale_queued stale_processing max_attempts jobs q some_attempt b = record {
  unique = run_sweep-HasUniqueIds now stale_queued stale_processing max_attempts jobs q b.unique;
  each = λ k.
      ap (found_ok max_attempts)
        (sweep_exact now stale_queued stale_processing max_attempts jobs q k b.unique)
      ∙ swept_ok now stale_processing max_attempts (get_ingest_job k jobs) some_attempt (b.each k);
}
