-- ===== src/EvalRuns.antt =====
-- narration-enrichment/src/narration_enrichment/db.py: the tables `eval_runs` and `eval_results` and
-- `record_eval_run`. The texts `expected` and `actual` are kept as the values that they dump; the
-- latency is left out.
pub mod Counts
use gen_ai_backend.Prelude.{
  ℕ, suc, ◌+◌, ◌-◌, String, str_eq, Bool, true, false, ◌||◌, Option, none, some, List, [], ◌∷◌,
  ◌++◌, length, if◌then◌else◌,
}
use gen_ai_backend.Errors.{Raised, plain, Attempt, returned, raised, integrity_error}

-- What a case of an evaluation gives, with the checks `C` of that evaluation.
pub record EvalOutcome (E A C : Type 0) : Type 0 where
  pub id : String
  pub expected : E
  pub got : A
  pub checks : C
  pub error : Option Raised
  pub all_correct : Bool

pub record EvalRun : Type 0 where
  pub id : String
  pub started_at : ℕ
  pub finished_at : ℕ
  pub model_name : String
  pub total_cases : ℕ
  pub passed : ℕ
  pub failed : ℕ
  pub notes : Option String

pub record EvalResult (E A : Type 0) : Type 0 where
  pub id : ℕ
  pub run_id : String
  pub case_id : String
  pub passed : ℕ
  pub expected : E
  pub actual : A
  pub error : Option Raised

pub record EvalTables (E A : Type 0) : Type 0 where
  pub runs : List EvalRun
  pub results : List (EvalResult E A)
  pub next_id : ℕ

-- What the caller says of the run.
pub record RunTag : Type 0 where
  pub run_id : String
  pub started_at : ℕ
  pub finished_at : ℕ
  pub model_name : String
  pub notes : Option String

abbrev pub bit : Bool → ℕ
bit true = 1
bit false = 0

abbrev pub run_taken : String → List EvalRun → Bool
run_taken run_id [] = false
run_taken run_id (r ∷ rs) = str_eq r.id run_id || run_taken run_id rs

module _ {E A C : Type 0} where
  abbrev pub passed_count : List (EvalOutcome E A C) → ℕ
  passed_count [] = 0
  passed_count (o ∷ os) = bit o.all_correct + passed_count os

  abbrev result_row : ℕ → String → EvalOutcome E A C → EvalResult E A
  result_row id run_id o = record {
    id = id;
    run_id = run_id;
    case_id = o.id;
    passed = bit o.all_correct;
    expected = o.expected;
    actual = o.got;
    error = o.error;
  }

  abbrev pub result_rows : ℕ → String → List (EvalOutcome E A C) → List (EvalResult E A)
  result_rows id run_id [] = []
  result_rows id run_id (o ∷ os) = result_row id run_id o ∷ result_rows (suc id) run_id os

  abbrev pub run_row : RunTag → List (EvalOutcome E A C) → EvalRun
  run_row tag outcomes = record {
    id = tag.run_id;
    started_at = tag.started_at;
    finished_at = tag.finished_at;
    model_name = tag.model_name;
    total_cases = length outcomes;
    passed = passed_count outcomes;
    failed = length outcomes - passed_count outcomes;
    notes = tag.notes;
  }

  -- One commit; a taken primary key raises and writes nothing.
  unfoldable pub record_eval_run :
      RunTag → List (EvalOutcome E A C) → EvalTables E A → Attempt (EvalTables E A)
  record_eval_run tag outcomes t =
      if run_taken tag.run_id t.runs
      then raised (plain integrity_error)
      else returned (record {
        runs = t.runs ++ run_row tag outcomes ∷ [];
        results = t.results ++ result_rows t.next_id tag.run_id outcomes;
        next_id = t.next_id + length outcomes;
      })
