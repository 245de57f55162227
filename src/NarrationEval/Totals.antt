-- ===== src/NarrationEval/Totals.antt =====
-- narration-enrichment/eval/run_eval.py: the counts of the summary against the cases.
use gen_ai_backend.Prelude.{ℕ, ◌+◌, ◌≡◌, refl, Bool, true, false, List, [], ◌∷◌, length, arith}
use gen_ai_backend.Prelude.Text.{Text}
use gen_ai_backend.Errors.{Attempt, returned, raised}
use gen_ai_backend.EvalRuns.{bit}
use gen_ai_backend.NarrationEval.{
  GoldenCase, Enriched, Outcome, completed, count_by, checked, check_all, compare_result,
  summary_of,
}

-- Whether the call of a case answered.
abbrev answered : Attempt Enriched → Bool
answered (returned e) = true
answered (raised e) = false

module _ (lower upper : Text → Text) (enrich_narration : Text → Attempt Enriched) where
  abbrev answered_count : List GoldenCase → ℕ
  answered_count [] = 0
  answered_count (c ∷ cs) = bit (answered (enrich_narration c.narration)) + answered_count cs

  checked_one :
      (c : GoldenCase) (a : Attempt Enriched) (os : List Outcome)
      → length (completed (checked lower upper c a ∷ os)) ≡ bit (answered a) + length (completed os)
  unfolding compare_result
  checked_one c (returned e) os = omega arith
  checked_one c (raised e) os = omega arith

  length-completed :
      (cs : List GoldenCase)
      → length (completed (check_all lower upper enrich_narration cs)) ≡ answered_count cs
  length-completed [] = refl
  length-completed (c ∷ cs) = omega (
    arith,
    checked_one c (enrich_narration c.narration) (check_all lower upper enrich_narration cs),
    length-completed cs,
  )

  checked_passes :
      (c : GoldenCase) (a : Attempt Enriched) (os : List Outcome)
      → count_by (λ (o : Outcome). o.all_correct) (completed (checked lower upper c a ∷ os))
        ≡ bit ((checked lower upper c a).all_correct)
          + count_by (λ (o : Outcome). o.all_correct) (completed os)
  unfolding compare_result
  checked_passes c (returned e) os = refl
  checked_passes c (raised e) os = omega arith

  -- The accuracy counts leave no passing case out: a call that failed never passes, so that the passes
  -- among the completed are those of all cases.
  count_passes :
      (cs : List GoldenCase)
      → let os = check_all lower upper enrich_narration cs in
        (summary_of os).all_fields ≡ count_by (λ (o : Outcome). o.all_correct) os
  count_passes [] = refl
  count_passes (c ∷ cs) = omega (
    arith,
    checked_passes c (enrich_narration c.narration) (check_all lower upper enrich_narration cs),
    count_passes cs,
  )
