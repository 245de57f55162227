-- ===== src/Worker/Late.antt =====
-- narration-enrichment/src/narration_enrichment/worker.py: a worker that the sweep presumed dead and that
-- ends late.
use gen_ai_backend.Prelude.{
  ℕ, ◌+◌, ◌-◌, ◌<◌, String, ◌≡◌, refl, ap, ◌∙◌, true, false, none, some, arith, ltb, leb,
}
use gen_ai_backend.Errors.{Raised, is_transient}
use gen_ai_backend.IngestJobs.{
  done, failed, exception, presumed_dead, IngestJob, Jobs, get_ingest_job, is_claimable, claim_row,
  claim_ingest_job, finish_row, finish_ingest_job,
}
use gen_ai_backend.IngestJobs.Lookup.{HasUniqueIds}
use gen_ai_backend.IngestJobs.Claim.{
  claim-HasUniqueIds, finish-HasUniqueIds, get-claim_self, get-finish_self, is_found_claimable,
  claim_wins, claim_loses,
}
use gen_ai_backend.JobQueue.{JobQueue}
use gen_ai_backend.Worker.{failure_status, run_sweep}
use gen_ai_backend.Worker.Passes.{on_found, run_sweep-HasUniqueIds}
use gen_ai_backend.Worker.Sweep.{presumed, closed, sweep_exact}

-- A row claimed at `t1` that the sweep at `t2` finds stale and within its budget is left FAILED.
stale_row :
    (t1 t2 stale max_attempts : ℕ) (j : IngestJob)
    → j.attempts + 1 < max_attempts
    → stale < t2 - t1
    → closed t2 max_attempts (presumed t2 stale (claim_row t1 j))
      ≡ finish_row t2 failed (some presumed_dead) (claim_row t1 j)
stale_row t1 t2 stale max_attempts j budget old =
    let over : ltb stale (t2 - t1) ≡ true = ground arith in
    let within : leb max_attempts (j.attempts + 1) ≡ false = ground arith in rw (over, within) refl

transient_fails :
    (max_attempts attempts : ℕ) (e : Raised)
    → attempts < max_attempts
    → is_transient e ≡ true
    → failure_status max_attempts attempts e ≡ failed
unfolding failure_status
transient_fails max_attempts attempts e budget passing =
    let within : ltb attempts max_attempts ≡ true = ground arith in rw (passing, within) refl

-- In a table with unique ids, a claimable job with more than one attempt left is claimed by a worker;
-- a sweep later than the limit for a stale job fails it; a second worker then wins its claim and
-- brings it to DONE, and no one can claim it. If the first worker now ends with an exception that is
-- worth a retry and writes its own outcome, the DONE job can be claimed again.
pub late_finish_leaves_done :
    (t1 t2 t3 t4 t5 t6 stale_queued stale_processing max_attempts : ℕ) (id : String) (e : Raised)
    (js : Jobs) (q : JobQueue) (j : IngestJob)
    → HasUniqueIds js
    → get_ingest_job id js ≡ some j
    → is_claimable j.status ≡ true
    → j.attempts + 1 < max_attempts
    → stale_processing < t2 - t1
    → is_transient e ≡ true
    → let first = (claim_ingest_job t1 id js).0 in
      let swept = (run_sweep t2 stale_queued stale_processing max_attempts first q).0 in
      let second = claim_ingest_job t3 id swept in
      let finished = finish_ingest_job t4 id done none second.0 in
      let status = failure_status max_attempts (j.attempts + 1) e in
      let late = finish_ingest_job t5 id status (some (exception e)) finished in
      (second.1 ≡ true)
      × (claim_ingest_job t6 id finished ≡ (finished, false))
      × ((claim_ingest_job t6 id late).1 ≡ true)
late_finish_leaves_done t1 t2 t3 t4 t5 t6 stale_queued stale_processing max_attempts id e js q j u h
      c budget old passing =
    let first = (claim_ingest_job t1 id js).0 in
    let swept = (run_sweep t2 stale_queued stale_processing max_attempts first q).0 in
    let second = (claim_ingest_job t3 id swept).0 in
    let finished = finish_ingest_job t4 id done none second in
    let status = failure_status max_attempts (j.attempts + 1) e in
    let late = finish_ingest_job t5 id status (some (exception e)) finished in
    let j1 = claim_row t1 j in
    let j2 = finish_row t2 failed (some presumed_dead) j1 in
    let j3 = claim_row t3 j2 in
    let j4 = finish_row t4 done none j3 in
    let u1 = claim-HasUniqueIds t1 id js u in
    let u2 = run_sweep-HasUniqueIds t2 stale_queued stale_processing max_attempts first q u1 in
    let u3 = claim-HasUniqueIds t3 id swept u2 in
    let u4 = finish-HasUniqueIds t4 id done none second u3 in
    let u5 = finish-HasUniqueIds t5 id status (some (exception e)) finished u4 in
    let h1 = get-claim_self t1 id js j h c in
    let h2 : get_ingest_job id swept ≡ some j2 =
      sweep_exact t2 stale_queued stale_processing max_attempts first q id u1
      ∙ ap (on_found (λ k. closed t2 max_attempts (presumed t2 stale_processing k))) h1
      ∙ ap some (stale_row t1 t2 stale_processing max_attempts j budget old) in
    let h3 = get-claim_self t3 id swept j2 h2 refl in
    let h4 = get-finish_self t4 id done none second j3 h3 in
    let h5 = get-finish_self t5 id status (some (exception e)) finished j4 h4 in
    (
      claim_wins t3 id swept u2 ∙ ap is_found_claimable h2,
      claim_loses t6 id finished u4 (ap is_found_claimable h4),
      claim_wins t6 id late u5
          ∙ ap is_found_claimable h5
          ∙ ap is_claimable (transient_fails max_attempts (j.attempts + 1) e budget passing),
    )
