-- ===== src/IngestJobs/Listing.antt =====
-- The query by status finds the rows of that status, each once.
use gen_ai_backend.Prelude.{
  String, str_eq, eq_iff, ◌≡◌, refl, sym, ap, ◌∙◌, Bool, true, false, Bool-cases, inl, inr, Option,
  none, some, [], ◌∷◌, arith, if◌then◌else◌, leb,
}
use gen_ai_backend.IngestJobs.{
  Status, IngestJob, Jobs, get_ingest_job, status_eq, insert_by_created, list_ingest_jobs_by_status,
}
use gen_ai_backend.IngestJobs.Lookup.{HasUniqueIds}

abbrev pub with_status : Status → Option IngestJob → Option IngestJob
with_status s none = none
with_status s (some j) = if status_eq j.status s then some j else none

get-insert_by_created :
    (k : String) (j : IngestJob) (js : Jobs)
    → get_ingest_job j.id js ≡ none
    → get_ingest_job k (insert_by_created j js)
      ≡ (if str_eq j.id k then some j else get_ingest_job k js)
get-insert_by_created k j [] h = refl
get-insert_by_created k j (x ∷ xs) h =
    ground (arith, get-insert_by_created k j xs, eq_iff j.id k, eq_iff x.id k, eq_iff x.id j.id)

if-HasUniqueIds :
    (b : Bool) (xs ys : Jobs)
    → HasUniqueIds xs
    → HasUniqueIds ys
    → HasUniqueIds (if b then xs else ys)
if-HasUniqueIds true xs ys hx hy = hx
if-HasUniqueIds false xs ys hx hy = hy

tail_free :
    (k : String) (x : IngestJob) (xs : Jobs)
    → get_ingest_job k (x ∷ xs) ≡ none
    → (str_eq x.id k ≡ false) × (get_ingest_job k xs ≡ none)
tail_free k x xs h = ground arith

insert_by_created-HasUniqueIds :
    (j : IngestJob) (js : Jobs)
    → get_ingest_job j.id js ≡ none
    → HasUniqueIds js
    → HasUniqueIds (insert_by_created j js)
insert_by_created-HasUniqueIds j [] h u = (refl, tt)
insert_by_created-HasUniqueIds j (x ∷ xs) h u =
    let (other, free) = tail_free j.id x xs h in
    let kept : get_ingest_job x.id (insert_by_created j xs) ≡ none =
      get-insert_by_created x.id j xs free
      ∙ ground (arith, u.0, eq_iff j.id x.id, eq_iff x.id j.id) in
    if-HasUniqueIds (leb j.created_at x.created_at) (j ∷ x ∷ xs) (x ∷ insert_by_created j xs) (h, u)
      (kept, insert_by_created-HasUniqueIds j xs free u.1)

insert_if :
    (b : Bool) (s : Status) (k : String) (j : IngestJob) (l : Jobs) (found : Option IngestJob)
    → status_eq j.status s ≡ b
    → get_ingest_job j.id l ≡ none
    → get_ingest_job k l ≡ with_status s found
    → (str_eq j.id k ≡ true → found ≡ none)
    → get_ingest_job k (if b then insert_by_created j l else l)
      ≡ with_status s (if str_eq j.id k then some j else found)
insert_if true s k j l found b free h none_found = elim (Bool-cases (str_eq j.id k)) [
  | inl e ↦ get-insert_by_created k j l free ∙ rw (e, b) refl
  | inr e ↦ get-insert_by_created k j l free ∙ rw e h
]
insert_if false s k j l found b free h none_found = elim (Bool-cases (str_eq j.id k)) [
  | inl e ↦ h ∙ rw (e, none_found e, b) refl
  | inr e ↦ h ∙ rw e refl
]

module _ (s : Status) where
  pub get-list_ingest_jobs_by_status :
      (k : String) (js : Jobs)
      → HasUniqueIds js
      → get_ingest_job k (list_ingest_jobs_by_status s js) ≡ with_status s (get_ingest_job k js)
  unfolding list_ingest_jobs_by_status
  get-list_ingest_jobs_by_status k [] u = refl
  get-list_ingest_jobs_by_status k (j ∷ js) u =
      insert_if (status_eq j.status s) s k j (list_ingest_jobs_by_status s js) (get_ingest_job k js)
        refl (get-list_ingest_jobs_by_status j.id js u.1 ∙ rw (u.0) refl)
        (get-list_ingest_jobs_by_status k js u.1)
        (λ e. ap (λ i. get_ingest_job i js) (sym ((eq_iff j.id k).0 e)) ∙ u.0)

  pub list_ingest_jobs_by_status-HasUniqueIds :
      (js : Jobs) → HasUniqueIds js → HasUniqueIds (list_ingest_jobs_by_status s js)
  unfolding list_ingest_jobs_by_status
  list_ingest_jobs_by_status-HasUniqueIds [] u = tt
  list_ingest_jobs_by_status-HasUniqueIds (j ∷ js) u =
      let rest = list_ingest_jobs_by_status-HasUniqueIds js u.1 in
      let free : get_ingest_job j.id (list_ingest_jobs_by_status s js) ≡ none =
        get-list_ingest_jobs_by_status j.id js u.1 ∙ rw (u.0) refl in
      if-HasUniqueIds (status_eq j.status s) (insert_by_created j (list_ingest_jobs_by_status s js))
        (list_ingest_jobs_by_status s js)
        (insert_by_created-HasUniqueIds j (list_ingest_jobs_by_status s js) free rest) rest
