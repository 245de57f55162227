-- ===== src/NarrationEval.antt =====
-- narration-enrichment/eval/run_eval.py: `compare_result` of a golden case with an enrichment, and `main`,
-- which counts the answers by field and keeps the calls that failed apart. A share is kept as its two
-- numbers. What `enrich_narration` answers for each case is an argument.
pub mod Totals
mod Examples
use gen_ai_backend.Prelude.{
  ℕ, ◌+◌, ◌-◌, ◌==◌, String, Bool, true, false, ◌&&◌, ◌||◌, Option, none, some, List, [], ◌∷◌,
  length,
}
use gen_ai_backend.Prelude.Text.{Text, codes}
use gen_ai_backend.Errors.{Raised, plain, other, Attempt, returned, raised}
use gen_ai_backend.Bm25.{text_eq}
use gen_ai_backend.EvalRuns.{EvalOutcome, EvalTables, RunTag, bit, record_eval_run}

pub record GoldenCase : Type 0 where
  pub id : String
  pub narration : Text
  pub expected_merchant_contains : Text
  pub expected_category : Text
  pub expected_transaction_type : Text

-- An enrichment, less its confidence.
pub record Enriched : Type 0 where
  pub merchant : Text
  pub category : Text
  pub transaction_type : Text

pub record Checks : Type 0 where
  pub merchant : Bool
  pub category : Bool
  pub transaction_type : Bool

abbrev starts_with : Text → Text → Bool
starts_with [] text = true
starts_with (a ∷ part) [] = false
starts_with (a ∷ part) (b ∷ text) = a == b && starts_with part text

-- `part in text`
abbrev is_in : Text → Text → Bool
is_in part [] = starts_with part []
is_in part (c ∷ cs) = starts_with part (c ∷ cs) || is_in part cs

-- The outcome of a case: what was expected and got (`none`: the call failed), with its checks.
abbrev pub Outcome : Type 0
Outcome = EvalOutcome (Option GoldenCase) (Option Enriched) Checks

abbrev failed_checks : Checks
failed_checks = record { merchant = false; category = false; transaction_type = false }

abbrev pub is_completed : Outcome → Bool
is_completed o = elim o.error [ none ↦ true | some e ↦ false ]

abbrev pub completed : List Outcome → List Outcome
completed [] = []
completed (o ∷ os) = elim (is_completed o) [ true ↦ o ∷ completed os | false ↦ completed os ]

abbrev pub count_by : (Outcome → Bool) → List Outcome → ℕ
count_by p [] = 0
count_by p (o ∷ os) = bit (p o) + count_by p os

abbrev is_other : Option Enriched → Bool
is_other none = false
is_other (some e) = text_eq e.category (codes "other")

pub record Summary : Type 0 where
  pub total : ℕ
  pub completed : ℕ
  pub call_failures : ℕ
  pub merchant : ℕ
  pub category : ℕ
  pub transaction_type : ℕ
  pub all_fields : ℕ
  pub other_bucket : ℕ

abbrev pub summary_of : List Outcome → Summary
summary_of os =
    let done = completed os in
    record {
      total = length os;
      completed = length done;
      call_failures = length os - length done;
      merchant = count_by (λ (o : Outcome). o.checks.merchant) done;
      category = count_by (λ (o : Outcome). o.checks.category) done;
      transaction_type = count_by (λ (o : Outcome). o.checks.transaction_type) done;
      all_fields = count_by (λ (o : Outcome). o.all_correct) done;
      other_bucket = count_by (λ (o : Outcome). is_other o.got) done;
    }

-- The failure rate of no cases divides by zero, before anything is reported.
unfoldable pub summarised : List Outcome → Attempt Summary
summarised [] = raised (plain other)
summarised (o ∷ os) = returned (summary_of (o ∷ os))

module _ (lower upper : Text → Text) where
  unfoldable pub compare_result : GoldenCase → Enriched → Outcome
  compare_result c e =
      let merchant = is_in (lower c.expected_merchant_contains) (lower e.merchant) in
      let category = text_eq e.category c.expected_category in
      let transaction_type =
        text_eq (upper e.transaction_type) (upper c.expected_transaction_type) in
      record {
        id = c.id;
        expected = some c;
        got = some e;
        checks = record {
          merchant = merchant;
          category = category;
          transaction_type = transaction_type;
        };
        error = none;
        all_correct = merchant && category && transaction_type;
      }

  -- A call that fails is no answer that is wrong.
  abbrev pub checked : GoldenCase → Attempt Enriched → Outcome
  checked c (returned e) = compare_result c e
  checked c (raised e) = record {
    id = c.id;
    expected = none;
    got = none;
    checks = failed_checks;
    error = some e;
    all_correct = false;
  }

  abbrev pub check_all : (Text → Attempt Enriched) → List GoldenCase → List Outcome
  check_all enrich_narration [] = []
  check_all enrich_narration (c ∷ cs) =
      checked c (enrich_narration c.narration) ∷ check_all enrich_narration cs

abbrev pub RunTables : Type 0
RunTables = EvalTables (Option GoldenCase) (Option Enriched)

-- `_persist_run_to_db`: a failure is only printed.
abbrev persisted : RunTables → Attempt RunTables → RunTables
persisted t (raised e) = t
persisted t (returned t') = t'

abbrev reported : RunTag → List Outcome → RunTables → Attempt Summary → RunTables × Attempt Summary
reported tag os t (raised e) = (t, raised e)
reported tag os t (returned s) = (persisted t (record_eval_run tag os t), returned s)

-- `main`: the summary, then the record of the run.
unfoldable pub run_eval :
    (Text → Text)
    → (Text → Text)
    → (Text → Attempt Enriched)
    → RunTag
    → List GoldenCase
    → RunTables
    → RunTables × Attempt Summary
run_eval lower upper enrich_narration tag cases t =
    let os = check_all lower upper enrich_narration cases in reported tag os t (summarised os)
