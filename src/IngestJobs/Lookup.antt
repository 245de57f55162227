-- ===== src/IngestJobs/Lookup.antt =====
-- Updates against lookups in the job table.
use gen_ai_backend.Prelude.{
  ℕ, String, str_eq, eq_iff, ◌≡◌, refl, Bool, Option, none, some, [], ◌∷◌, arith, if◌then◌else◌,
}
use gen_ai_backend.IngestJobs.{IngestJob, Jobs, get_ingest_job, update_where, count_where}

-- A function that keeps ids, applied where the test holds.
abbrev pub update_found :
    (IngestJob → Bool) → (IngestJob → IngestJob) → Option IngestJob → Option IngestJob
update_found p f none = none
update_found p f (some j) = if p j then some (f j) else some j

module _ (p : IngestJob → Bool) (f : IngestJob → IngestJob)
    (keeps : (j : IngestJob) → (f j).id ≡ j.id) where
  pub get_ingest_job-update_where :
      (id k : String) (js : Jobs)
      → get_ingest_job k (update_where id p f js)
        ≡ (if str_eq id k then update_found p f (get_ingest_job k js) else get_ingest_job k js)
  get_ingest_job-update_where id k [] = ground arith
  get_ingest_job-update_where id k (j ∷ js) = ground (
    arith,
    get_ingest_job-update_where id k js,
    keeps j,
    eq_iff j.id id,
    eq_iff j.id k,
    eq_iff id k,
  )

-- The primary key: no two rows share an id.
abbrev pub HasUniqueIds : Jobs → Type 0
HasUniqueIds [] = Unit
HasUniqueIds (j ∷ js) = (get_ingest_job j.id js ≡ none) × HasUniqueIds js

abbrev found_count : (IngestJob → Bool) → Option IngestJob → ℕ
found_count p none = 0
found_count p (some j) = if p j then 1 else 0

pub count_where_unique :
    (p : IngestJob → Bool) (id : String) (js : Jobs)
    → HasUniqueIds js
    → count_where id p js ≡ found_count p (get_ingest_job id js)
count_where_unique p id [] u = refl
count_where_unique p id (j ∷ js) u =
    ground (arith, count_where_unique p id js u.1, u.0, eq_iff j.id id)
