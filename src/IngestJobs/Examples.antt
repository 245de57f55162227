-- ===== src/IngestJobs/Examples.antt =====
-- A job that two workers claim.
use gen_ai_backend.Prelude.{◌≡◌, refl, false, [], ◌∷◌}
use gen_ai_backend.IngestJobs.{
  Jobs, create_ingest_job, claim_ingest_job, count_ingest_jobs_by_status, count_ingest_backlog,
  queued,
}
use gen_ai_backend.IngestJobs.Claim.{claim_excludes}

abbrev jobs : Jobs
jobs = create_ingest_job 1 "j" "a" "A" (65 ∷ []) "sum" []

abbrev two_jobs : Jobs
two_jobs = create_ingest_job 2 "k" "a" "A" (65 ∷ []) "sum" jobs

counted :
    (count_ingest_backlog (claim_ingest_job 3 "j" two_jobs).0 ≡ 2)
    × (count_ingest_jobs_by_status queued (claim_ingest_job 3 "j" two_jobs).0 ≡ 1)
unfolding count_ingest_backlog count_ingest_jobs_by_status claim_ingest_job create_ingest_job
counted = (refl, refl)

claim_excludes_example :
    claim_ingest_job 4 "j" (claim_ingest_job 3 "j" jobs).0
    ≡ ((claim_ingest_job 3 "j" jobs).0, false)
unfolding create_ingest_job claim_ingest_job
claim_excludes_example = claim_excludes 3 4 "j" jobs (refl, tt) refl
