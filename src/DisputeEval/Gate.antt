-- ===== src/DisputeEval/Gate.antt =====
-- narration-enrichment/eval/run_eval_disputes.py: what the exit code says of the outcomes.
use gen_ai_backend.Prelude.{
  ℕ, ◌+◌, ◌*◌, ◌≤◌, ◌<◌, ◌≡◌, refl, sym, ap, ◌↔◌, ◌&&◌, Bool, true, false, Option, none, some, List,
  [], ◌∷◌, length, leb, if◌then◌else◌, arith,
}
use gen_ai_backend.Errors.{Raised, Attempt, returned, raised}
use gen_ai_backend.Tools.{Toolbox}
use gen_ai_backend.Enrichments.{EnrichmentRecord}
use gen_ai_backend.Disputes.{Dispute, Proposal, AgentStep, is_proposed}
use gen_ai_backend.AgentTurns.{Framed, StepReply}
use gen_ai_backend.EvalRuns.{EvalTables, RunTag, bit}
use gen_ai_backend.DisputeJudge.{
  GoldenCase, JudgeVerdict, Judge, points, class_eq, differs, corrected, cross_checked,
  correct_total, grounded_total, judge_proposal, above_thresholds, metrics_of, threshold_gate,
}
use gen_ai_backend.DisputeEval.{
  EvalDb, Fresh, Got, graded, Expected, escalated_outcome, Outcome, Row, with_verdict,
  with_proposal, judged, dispute_run, disputed, on_case, collected, exit_of, run_one_case,
  run_cases, run_eval,
}

-- What the report says of one case: 1 for a graded proposal, 1 for one of the class that was expected,
-- and the points for its grounding.
abbrev graded_bit : Got → ℕ
graded_bit (graded p v) = 1
graded_bit _ = 0

abbrev right_bit : Expected → Got → ℕ
right_bit (some e) (graded p v) = bit (class_eq p.dispute_class e.0)
right_bit _ _ = 0

abbrev grounding : Got → ℕ
grounding (graded p v) = points v.grounded
grounding _ = 0

abbrev pub graded_count : List Outcome → ℕ
graded_count [] = 0
graded_count (o ∷ os) = graded_bit o.got + graded_count os

abbrev pub right_count : List Outcome → ℕ
right_count [] = 0
right_count (o ∷ os) = right_bit o.expected o.got + right_count os

abbrev pub ground_count : List Outcome → ℕ
ground_count [] = 0
ground_count (o ∷ os) = grounding o.got + ground_count os

-- At least one proposal, four fifths of them of the expected class, and 1.5 points on the average.
abbrev pub PassesGate : List Outcome → Type 0
PassesGate os =
    (0 < graded_count os)
    × (4 * graded_count os ≤ 5 * right_count os)
    × (3 * graded_count os ≤ 2 * ground_count os)

abbrev Tallies : List Outcome → List JudgeVerdict → Type 0
Tallies os vs =
    (length vs ≡ graded_count os)
    × (correct_total vs ≡ right_count os)
    × (grounded_total vs ≡ ground_count os)

abbrev RowTallies : Row → Type 0
RowTallies (o, v) = Tallies (o ∷ []) (collected v [])

abbrev AttemptTallies : Attempt Row → Type 0
AttemptTallies (raised e) = Unit
AttemptTallies (returned row) = RowTallies row

agrees :
    (said b : Bool) (v : JudgeVerdict)
    → v.classification_correct ≡ said
    → (if differs said b then record v { classification_correct = b } else v).classification_correct
      ≡ b
agrees true true v h = h
agrees true false v h = refl
agrees false true v h = refl
agrees false false v h = h

corrected_objective : (b : Bool) (v : JudgeVerdict) → (corrected b v).classification_correct ≡ b
corrected_objective b v = agrees v.classification_correct b v refl

bit-cross_checked :
    (c : GoldenCase) (p : Proposal) (answer : Attempt JudgeVerdict)
    → AttemptTallies
        (with_verdict c p (cross_checked (class_eq p.dispute_class c.expected_class) answer))
bit-cross_checked c p (raised e) = tt
bit-cross_checked c p (returned v) = (
  refl,
  ap (λ b. bit b + 0) (corrected_objective (class_eq p.dispute_class c.expected_class) v),
  refl,
)

with_proposal-Tallies :
    (judge : Judge) (c : GoldenCase) (trail : List AgentStep) (p : Option Proposal)
    → AttemptTallies (with_proposal judge c trail p)
unfolding judge_proposal
with_proposal-Tallies judge c trail none = tt
with_proposal-Tallies judge c trail (some p) = bit-cross_checked c p (judge c p trail)

judged-Tallies :
    (judge : Judge) (c : GoldenCase) (run : Dispute × List AgentStep × Option Raised)
    → AttemptTallies (judged judge c run)
judged-Tallies judge c (d, trail, some e) = tt
judged-Tallies judge c (d, trail, none) =
    elim (is_proposed d.status)
      as (λ b. AttemptTallies (
        if b
        then with_proposal judge c trail d.proposal
        else returned (escalated_outcome c d, none))) [
          | true ↦ with_proposal-Tallies judge c trail d.proposal
          | false ↦ (refl, refl, refl)
        ]

on_case-Tallies : (c : GoldenCase) (a : Attempt Row) → AttemptTallies a → RowTallies (on_case c a)
on_case-Tallies c (raised e) h = (refl, refl, refl)
on_case-Tallies c (returned row) h = h

add_row :
    (o : Outcome) (v : Option JudgeVerdict) (os : List Outcome) (vs : List JudgeVerdict)
    → RowTallies (o, v)
    → Tallies os vs
    → Tallies (o ∷ os) (collected v vs)
add_row o none os vs h t =
    (omega (arith, h.0, t.0), omega (arith, h.1, t.1), omega (arith, h.2, t.2))
add_row o (some v) os vs h t =
    (omega (arith, h.0, t.0), omega (arith, h.1, t.1), omega (arith, h.2, t.2))

exit_exact :
    (n c g : ℕ)
    → 0 < n
    → (exit_of (leb (4 * n) (5 * c) && leb (3 * n) (2 * g)) ≡ 0)
      ↔ ((0 < n) × (4 * n ≤ 5 * c) × (3 * n ≤ 2 * g))
exit_exact n c g h = (λ e. (h, ground arith, ground arith), λ t. ground arith)

above_exact :
    (v : JudgeVerdict) (vs : List JudgeVerdict) (os : List Outcome)
    → Tallies os (v ∷ vs)
    → (exit_of (above_thresholds (metrics_of (v ∷ vs))) ≡ 0) ↔ PassesGate os
above_exact v vs os h =
    rw (sym h.0, sym h.1, sym h.2)
      (exit_exact (length (v ∷ vs)) (correct_total (v ∷ vs)) (grounded_total (v ∷ vs))
        (omega arith))

gate_tallied :
    (vs : List JudgeVerdict) (os : List Outcome)
    → Tallies os vs
    → (exit_of ((threshold_gate vs).0) ≡ 0) ↔ PassesGate os
unfolding threshold_gate
gate_tallied [] os h = (λ e. ground arith, λ t. omega (arith, h.0, t.0))
gate_tallied (v ∷ vs) os h = above_exact v vs os h

module _ {V : Type 0} (tools : List (EnrichmentRecord V) → Toolbox)
    (ask : List (EnrichmentRecord V) → Dispute → List Framed → Attempt StepReply)
    (judge : Judge) where
  disputed-Tallies :
      (f : Fresh) (db : EvalDb V) (c : GoldenCase) (id : Attempt (Option ℕ))
      → AttemptTallies ((disputed tools ask judge f db c id).1)
  disputed-Tallies f db c (raised e) = tt
  disputed-Tallies f db c (returned id) =
      judged-Tallies judge c (dispute_run tools ask judge f db c id)

  run_one_case-Tallies :
      (f : Fresh) (db : EvalDb V) (c : GoldenCase)
      → AttemptTallies ((run_one_case tools ask judge f db c).1)
  unfolding run_one_case
  run_one_case-Tallies f db c = search (disputed-Tallies)

  run_cases-Tallies :
      (db : EvalDb V) (cases : List (Fresh × GoldenCase))
      → Tallies ((run_cases tools ask judge db cases).1) ((run_cases tools ask judge db cases).2)
  unfolding run_cases
  run_cases-Tallies db [] = (refl, refl, refl)
  run_cases-Tallies db ((f, c) ∷ cases) =
      let answer = run_one_case tools ask judge f db c in
      let row = on_case c answer.1 in
      let rest = run_cases tools ask judge answer.0 cases in
      add_row row.0 row.1 rest.1 rest.2 (on_case-Tallies c answer.1 (run_one_case-Tallies f db c))
        (run_cases-Tallies answer.0 cases)

  -- Whatever the model, the tools and the judge answer, `main` exits with 0 exactly if at least one case
  -- ended with a proposal that was judged, at least four fifths of those proposals are of the class
  -- that their case expects, whatever the judge says of it, and their grounding is at least 1.5 on the
  -- average; a case that escalated or raised does not enter.
  pub exit_code_exact :
      (tag : RunTag) (t : EvalTables Expected Got) (db : EvalDb V)
      (cases : List (Fresh × GoldenCase))
      → ((run_eval tools ask judge tag t db cases).exit_code ≡ 0)
        ↔ PassesGate ((run_eval tools ask judge tag t db cases).outcomes)
  unfolding run_eval
  exit_code_exact tag t db cases =
      let run = run_cases tools ask judge db cases in
      gate_tallied run.2 run.1 (run_cases-Tallies db cases)
