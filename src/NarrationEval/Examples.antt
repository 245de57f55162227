-- ===== src/NarrationEval/Examples.antt =====
-- A case that passes beside one whose call fails, and a run of no cases.
use gen_ai_backend.Prelude.{◌≡◌, refl, none, [], ◌∷◌, List}
use gen_ai_backend.Prelude.Text.{Text, codes, is_empty}
use gen_ai_backend.Prelude.{if◌then◌else◌}
use gen_ai_backend.Errors.{Attempt, plain, other, timeout, returned, raised}
use gen_ai_backend.EvalRuns.{RunTag, record_eval_run}
use gen_ai_backend.NarrationEval.{
  GoldenCase, Enriched, RunTables, compare_result, summarised, run_eval,
}

abbrev case : GoldenCase
case = record {
  id = "g1";
  narration = codes "upi swiggy";
  expected_merchant_contains = codes "wig";
  expected_category = codes "food";
  expected_transaction_type = codes "upi";
}

abbrev lost : GoldenCase
lost = record case { id = "g2"; narration = [] }

abbrev ask_model : Text → Attempt Enriched
ask_model narration =
    if is_empty narration
    then raised (plain timeout)
    else returned (record {
      merchant = codes "swiggy";
      category = codes "food";
      transaction_type = codes "upi";
    })

abbrev tag : RunTag
tag = record { run_id = "r"; started_at = 1; finished_at = 2; model_name = "m"; notes = none }

abbrev tables : RunTables
tables = record { runs = []; results = []; next_id = 1 }

abbrev same : Text → Text
same text = text

abbrev cases : List GoldenCase
cases = case ∷ lost ∷ []

-- The failed call counts as a failure of the provider, not as a wrong answer.
failure_kept_apart :
    (run_eval same same ask_model tag cases tables).1
    ≡ returned (record {
      total = 2;
      completed = 1;
      call_failures = 1;
      merchant = 1;
      category = 1;
      transaction_type = 1;
      all_fields = 1;
      other_bucket = 0;
    })
unfolding run_eval summarised compare_result record_eval_run
failure_kept_apart = refl

-- A run of no cases raises, and is not recorded.
no_cases_raise : run_eval same same ask_model tag [] tables ≡ (tables, raised (plain other))
unfolding run_eval summarised
no_cases_raise = refl
