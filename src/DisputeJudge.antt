-- ===== src/DisputeJudge.antt =====
-- narration-enrichment/src/narration_enrichment/dispute_judge.py: the verdict of a judge with the check
-- of its objective field, and the gate over the verdicts. The judge is a parameter, asked with what
-- the prompt is made of. A mean is the correctly rounded quotient of natural numbers, so its comparison
-- with 0.80 and with 1.5 is that of the products; the rounded numbers of the report are kept as the
-- sums that they come from.
use gen_ai_backend.Prelude.{
  ℕ, ◌+◌, ◌*◌, String, Bool, true, false, not, ◌&&◌, Option, none, some, List, [], ◌∷◌, length, leb,
  if◌then◌else◌,
}
use gen_ai_backend.Prelude.Text.{Text}
use gen_ai_backend.Errors.{Attempt, returned, raised}
use gen_ai_backend.EvalRuns.{bit}
use gen_ai_backend.Disputes.{
  Class, category_correction, duplicate_charge, unrecognized, amount_mismatch, Resolution, Proposal,
  AgentStep,
}

pub record SeedRow : Type 0 where
  pub narration : Text
  pub merchant : Text
  pub category : Text
  pub transaction_type : Text

-- A case of eval/golden_disputes.json.
pub record GoldenCase : Type 0 where
  pub id : String
  pub claim_text : String
  pub seed_enrichments : List SeedRow
  pub disputed_index : Option ℕ
  pub expected_class : Class
  pub expected_resolution : Resolution
  pub key_facts : String

pub data Grade : Type 0 where
  fabricated partial full : Grade

abbrev pub points : Grade → ℕ
points fabricated = 0
points partial = 1
points full = 2

pub record JudgeVerdict : Type 0 where
  pub classification_correct : Bool
  pub grounded : Grade
  pub policy_compliant : Grade
  pub reasoning : String

abbrev pub class_eq : Class → Class → Bool
class_eq category_correction category_correction = true
class_eq duplicate_charge duplicate_charge = true
class_eq unrecognized unrecognized = true
class_eq amount_mismatch amount_mismatch = true
class_eq _ _ = false

abbrev pub differs : Bool → Bool → Bool
differs true b = not b
differs false b = b

abbrev pub corrected : Bool → JudgeVerdict → JudgeVerdict
corrected actual v =
    if differs v.classification_correct actual
    then record v { classification_correct = actual }
    else v

abbrev pub cross_checked : Bool → Attempt JudgeVerdict → Attempt JudgeVerdict
cross_checked actual (raised e) = raised e
cross_checked actual (returned v) = returned (corrected actual v)

abbrev pub Judge : Type 0
Judge = GoldenCase → Proposal → List AgentStep → Attempt JudgeVerdict

unfoldable pub judge_proposal : Judge → Judge
judge_proposal judge golden_case proposal trail =
    cross_checked (class_eq proposal.dispute_class golden_case.expected_class)
      (judge golden_case proposal trail)

abbrev pub correct_total : List JudgeVerdict → ℕ
correct_total [] = 0
correct_total (v ∷ vs) = bit v.classification_correct + correct_total vs

abbrev pub grounded_total : List JudgeVerdict → ℕ
grounded_total [] = 0
grounded_total (v ∷ vs) = points v.grounded + grounded_total vs

pub record Metrics : Type 0 where
  pub correct : ℕ
  pub grounded : ℕ
  pub cases : ℕ

-- `GATE_MIN_CLASS_ACCURACY` is 0.80, `GATE_MIN_GROUNDED_MEAN` is 1.5.
abbrev pub above_thresholds : Metrics → Bool
above_thresholds m = leb (4 * m.cases) (5 * m.correct) && leb (3 * m.cases) (2 * m.grounded)

abbrev pub metrics_of : List JudgeVerdict → Metrics
metrics_of vs = record {
  correct = correct_total vs;
  grounded = grounded_total vs;
  cases = length vs;
}

-- `none`: there are no verdicts.
unfoldable pub threshold_gate : List JudgeVerdict → Bool × Option Metrics
threshold_gate [] = (false, none)
threshold_gate (v ∷ vs) = let m = metrics_of (v ∷ vs) in (above_thresholds m, some m)
