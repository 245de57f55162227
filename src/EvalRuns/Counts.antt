-- ===== src/EvalRuns/Counts.antt =====
-- narration-enrichment/src/narration_enrichment/db.py: the totals of a recorded run against its rows.
use gen_ai_backend.Prelude.{
  ℕ, suc, ◌+◌, ◌≤◌, ◌≡◌, refl, String, Bool, true, false, List, [], ◌∷◌, length, arith,
}
use gen_ai_backend.EvalRuns.{
  EvalOutcome, EvalResult, RunTag, bit, passed_count, result_rows, run_row,
}

abbrev passed_rows : {E A : Type 0} → List (EvalResult E A) → ℕ
passed_rows [] = 0
passed_rows (r ∷ rs) = r.passed + passed_rows rs

bit_le : (b : Bool) → bit b ≤ 1
bit_le true = omega arith
bit_le false = omega arith

module _ {E A C : Type 0} where
  passed_rows-result_rows :
      (id : ℕ) (run_id : String) (os : List (EvalOutcome E A C))
      → passed_rows (result_rows id run_id os) ≡ passed_count os
  passed_rows-result_rows id run_id [] = refl
  passed_rows-result_rows id run_id (o ∷ os) =
      omega (arith, passed_rows-result_rows (suc id) run_id os)

  passed_count_le : (os : List (EvalOutcome E A C)) → passed_count os ≤ length os
  passed_count_le [] = omega arith
  passed_count_le (o ∷ os) = omega (arith, bit_le o.all_correct, passed_count_le os)

  -- The totals of a run's row are those of the rows of its cases: as many pass as the row says, and the
  -- passed and the failed add up to all.
  run_row_adds_up :
      (tag : RunTag) (os : List (EvalOutcome E A C)) (id : ℕ)
      → (passed_rows (result_rows id tag.run_id os) ≡ (run_row tag os).passed)
        × ((run_row tag os).passed + (run_row tag os).failed ≡ (run_row tag os).total_cases)
  run_row_adds_up tag os id =
      (passed_rows-result_rows id tag.run_id os, omega (arith, passed_count_le os))
