-- ===== src/IngestJobs.antt =====
-- narration-enrichment/src/narration_enrichment/db.py: the table `ingest_jobs`, rows in the order of
-- insertion, and its queries. Each function is one committed statement; the reading of the clock is
-- its first argument.
pub mod Lookup
pub mod Claim
pub mod Listing
mod Examples
use gen_ai_backend.Prelude.{
  ℕ, ◌+◌, String, str_eq, Bool, true, false, ◌&&◌, ◌||◌, ◌==◌, Option, none, some, List, [], ◌∷◌,
  ◌++◌, leb, if◌then◌else◌,
}
use gen_ai_backend.Prelude.Text.{Text}
use gen_ai_backend.Errors.{Raised}

pub data Status : Type 0 where
  queued processing done failed dead : Status

-- The text of the column `error`: that of an exception, or the sweep's.
pub data JobError : Type 0 where
  exception : Raised → JobError
  presumed_dead : JobError

pub record IngestJob : Type 0 where
  pub id : String
  pub doc_id : String
  pub title : String
  pub content : Text
  pub checksum : String
  pub source_uri : Option String
  pub status : Status
  pub attempts : ℕ
  pub error : Option JobError
  pub created_at : ℕ
  pub started_at : Option ℕ
  pub finished_at : Option ℕ

abbrev pub Jobs : Type 0
Jobs = List IngestJob

unfoldable pub create_ingest_job : ℕ → String → String → String → Text → String → Jobs → Jobs
create_ingest_job now job_id doc_id title content checksum jobs =
    jobs
    ++ record {
      id = job_id;
      doc_id = doc_id;
      title = title;
      content = content;
      checksum = checksum;
      source_uri = none;
      status = queued;
      attempts = 0;
      error = none;
      created_at = now;
      started_at = none;
      finished_at = none;
    }
      ∷ []

abbrev pub get_ingest_job : String → Jobs → Option IngestJob
get_ingest_job job_id [] = none
get_ingest_job job_id (j ∷ js) = if str_eq j.id job_id then some j else get_ingest_job job_id js

-- UPDATE ... WHERE id = ? AND p.
abbrev pub update_where : String → (IngestJob → Bool) → (IngestJob → IngestJob) → Jobs → Jobs
update_where job_id p f [] = []
update_where job_id p f (j ∷ js) =
    (if str_eq j.id job_id && p j then f j else j) ∷ update_where job_id p f js

-- The row count of that UPDATE.
abbrev pub count_where : String → (IngestJob → Bool) → Jobs → ℕ
count_where job_id p [] = 0
count_where job_id p (j ∷ js) =
    (if str_eq j.id job_id && p j then 1 else 0) + count_where job_id p js

abbrev pub is_claimable : Status → Bool
is_claimable queued = true
is_claimable failed = true
is_claimable _ = false

abbrev pub claim_row : ℕ → IngestJob → IngestJob
claim_row now j = record j { status = processing; attempts = j.attempts + 1; started_at = some now }

unfoldable pub claim_ingest_job : ℕ → String → Jobs → Jobs × Bool
claim_ingest_job now job_id jobs = (
  update_where job_id (λ j. is_claimable j.status) (claim_row now) jobs,
  count_where job_id (λ j. is_claimable j.status) jobs == 1,
)

abbrev pub finish_row : ℕ → Status → Option JobError → IngestJob → IngestJob
finish_row now status error j = record j { status = status; error = error; finished_at = some now }

unfoldable pub finish_ingest_job : ℕ → String → Status → Option JobError → Jobs → Jobs
finish_ingest_job now job_id status error jobs =
    update_where job_id (λ j. true) (finish_row now status error) jobs

abbrev pub status_eq : Status → Status → Bool
status_eq queued queued = true
status_eq processing processing = true
status_eq done done = true
status_eq failed failed = true
status_eq dead dead = true
status_eq _ _ = false

-- ORDER BY created_at, rows of one instant in the order of insertion.
abbrev pub insert_by_created : IngestJob → Jobs → Jobs
insert_by_created j [] = j ∷ []
insert_by_created j (k ∷ ks) =
    let rest = insert_by_created j ks in
    if leb j.created_at k.created_at then j ∷ k ∷ ks else k ∷ rest

unfoldable pub list_ingest_jobs_by_status : Status → Jobs → Jobs
list_ingest_jobs_by_status s [] = []
list_ingest_jobs_by_status s (j ∷ js) =
    let rest = list_ingest_jobs_by_status s js in
    if status_eq j.status s then insert_by_created j rest else rest

pub count_ingest_jobs_by_status : Status → Jobs → ℕ
count_ingest_jobs_by_status s [] = 0
count_ingest_jobs_by_status s (j ∷ js) =
    (if status_eq j.status s then 1 else 0) + count_ingest_jobs_by_status s js

unfoldable pub count_ingest_backlog : Jobs → ℕ
count_ingest_backlog [] = 0
count_ingest_backlog (j ∷ js) =
    (if status_eq j.status queued || status_eq j.status processing then 1 else 0)
    + count_ingest_backlog js

-- The newer of a match and the newest match behind it.
abbrev newer : IngestJob → Option IngestJob → Option IngestJob
newer j none = some j
newer j (some k) = if leb k.created_at j.created_at then some j else some k

abbrev is_match : String → String → (Status → Bool) → IngestJob → Bool
is_match doc_id checksum statuses j =
    str_eq j.doc_id doc_id && str_eq j.checksum checksum && statuses j.status

unfoldable pub find_ingest_job_by_checksum :
    String → String → (Status → Bool) → Jobs → Option IngestJob
find_ingest_job_by_checksum doc_id checksum statuses [] = none
find_ingest_job_by_checksum doc_id checksum statuses (j ∷ js) =
    let rest = find_ingest_job_by_checksum doc_id checksum statuses js in
    if is_match doc_id checksum statuses j then newer j rest else rest
