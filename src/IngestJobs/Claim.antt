-- ===== src/IngestJobs/Claim.antt =====
-- The compare-and-set claim, and the outcome write that has no such test.
use gen_ai_backend.Prelude.{
  ℕ, String, str_eq, eq_iff, ◌≡◌, refl, ◌∙◌, Bool, true, false, Option, none, some, [], ◌∷◌, arith,
  if◌then◌else◌,
}
use gen_ai_backend.IngestJobs.{
  Status, JobError, IngestJob, Jobs, get_ingest_job, update_where, count_where, is_claimable,
  claim_row, claim_ingest_job, finish_row, finish_ingest_job,
}
use gen_ai_backend.IngestJobs.Lookup.{
  HasUniqueIds, update_found, count_where_unique, get_ingest_job-update_where,
}

update_where_none :
    (id : String) (p : IngestJob → Bool) (f : IngestJob → IngestJob) (js : Jobs)
    → count_where id p js ≡ 0
    → update_where id p f js ≡ js
update_where_none id p f [] h = refl
update_where_none id p f (j ∷ js) h = ground (arith, update_where_none id p f js)

update_where-HasUniqueIds :
    (id : String) (p : IngestJob → Bool) (f : IngestJob → IngestJob)
    (keeps : (j : IngestJob) → (f j).id ≡ j.id) (js : Jobs)
    → HasUniqueIds js
    → HasUniqueIds (update_where id p f js)
update_where-HasUniqueIds id p f keeps [] u = tt
update_where-HasUniqueIds id p f keeps (j ∷ js) u = (
  ground (arith, u.0, keeps j, get_ingest_job-update_where p f keeps id j.id js),
  update_where-HasUniqueIds id p f keeps js u.1,
)

pub claim-HasUniqueIds :
    (now : ℕ) (id : String) (js : Jobs)
    → HasUniqueIds js
    → HasUniqueIds (claim_ingest_job now id js).0
unfolding claim_ingest_job
claim-HasUniqueIds now id js u =
    update_where-HasUniqueIds id (λ j. is_claimable j.status) (claim_row now) (λ j. refl) js u

pub finish-HasUniqueIds :
    (now : ℕ) (id : String) (s : Status) (e : Option JobError) (js : Jobs)
    → HasUniqueIds js
    → HasUniqueIds (finish_ingest_job now id s e js)
unfolding finish_ingest_job
finish-HasUniqueIds now id s e js u =
    update_where-HasUniqueIds id (λ j. true) (finish_row now s e) (λ j. refl) js u

pub get-finish :
    (now : ℕ) (id k : String) (s : Status) (e : Option JobError) (js : Jobs)
    → get_ingest_job k (finish_ingest_job now id s e js) ≡ (
        if str_eq id k
        then update_found (λ j. true) (finish_row now s e) (get_ingest_job k js)
        else get_ingest_job k js)
unfolding finish_ingest_job
get-finish now id k s e js =
    get_ingest_job-update_where (λ j. true) (finish_row now s e) (λ j. refl) id k js

pub get-claim :
    (now : ℕ) (id k : String) (js : Jobs)
    → get_ingest_job k (claim_ingest_job now id js).0 ≡ (
        if str_eq id k
        then update_found (λ j. is_claimable j.status) (claim_row now) (get_ingest_job k js)
        else get_ingest_job k js)
unfolding claim_ingest_job
get-claim now id k js =
    get_ingest_job-update_where (λ j. is_claimable j.status) (claim_row now) (λ j. refl) id k js

-- The row of a job that is there, after an outcome write and after a claim.
pub get-finish_self :
    (now : ℕ) (id : String) (s : Status) (e : Option JobError) (js : Jobs) (j : IngestJob)
    → get_ingest_job id js ≡ some j
    → get_ingest_job id (finish_ingest_job now id s e js) ≡ some (finish_row now s e j)
get-finish_self now id s e js j h = get-finish now id id s e js ∙ rw ((eq_iff id id).1 refl, h)

pub get-claim_self :
    (now : ℕ) (id : String) (js : Jobs) (j : IngestJob)
    → get_ingest_job id js ≡ some j
    → is_claimable j.status ≡ true
    → get_ingest_job id (claim_ingest_job now id js).0 ≡ some (claim_row now j)
get-claim_self now id js j h c = get-claim now id id js ∙ rw ((eq_iff id id).1 refl, h, c)

abbrev pub is_found_claimable : Option IngestJob → Bool
is_found_claimable none = false
is_found_claimable (some j) = is_claimable j.status

pub claim_wins :
    (now : ℕ) (id : String) (js : Jobs)
    → HasUniqueIds js
    → (claim_ingest_job now id js).1 ≡ is_found_claimable (get_ingest_job id js)
unfolding claim_ingest_job
claim_wins now id js u = ground (arith, count_where_unique (λ j. is_claimable j.status) id js u)

pub claim_loses :
    (now : ℕ) (id : String) (js : Jobs)
    → HasUniqueIds js
    → is_found_claimable (get_ingest_job id js) ≡ false
    → claim_ingest_job now id js ≡ (js, false)
unfolding claim_ingest_job
claim_loses now id js u h =
    let zero_rows : count_where id (λ j. is_claimable j.status) js ≡ 0 =
      count_where_unique (λ j. is_claimable j.status) id js u ∙ ground arith in
    rw (update_where_none id (λ j. is_claimable j.status) (claim_row now) js zero_rows, zero_rows)

-- In a table with unique ids, after a claim that wins, another claim of the same job at any time
-- loses and changes nothing.
pub claim_excludes :
    (t1 t2 : ℕ) (id : String) (js : Jobs)
    → HasUniqueIds js
    → (claim_ingest_job t1 id js).1 ≡ true
    → claim_ingest_job t2 id (claim_ingest_job t1 id js).0 ≡ ((claim_ingest_job t1 id js).0, false)
claim_excludes t1 t2 id js u won =
    claim_loses t2 id (claim_ingest_job t1 id js).0 (claim-HasUniqueIds t1 id js u)
      (ground (arith, get-claim t1 id id js, eq_iff id id, claim_wins t1 id js u))
