-- ===== src/DisputeEval.antt =====
-- narration-enrichment/eval/run_eval_disputes.py: `run_one_case` seeds the evidence of a golden case, runs
-- the dispute agent on it and has the proposal judged; `main` runs all cases, asks the gate and records
-- the run. The model, the tools and the judge are parameters; what they read of the database are the
-- seeded records. The ids, digests and clock readings of each case are arguments.
pub mod Gate
mod Examples
use gen_ai_backend.Prelude.{
  ℕ, zero, suc, ◌+◌, String, Bool, true, false, ◌&&◌, Option, none, some, List, [], ◌∷◌, ◌++◌,
  length, leb, if◌then◌else◌,
}
use gen_ai_backend.Errors.{Raised, plain, Attempt, returned, raised, index_error, value_error}
use gen_ai_backend.Tools.{Toolbox}
use gen_ai_backend.Enrichments.{EnrichmentRecord}
use gen_ai_backend.Auth.{ApiKey, insert_api_key}
use gen_ai_backend.Disputes.{
  Class, Resolution, uphold, deny, needs_human, Proposal, Reason, Status, Dispute, AgentStep,
  is_proposed, create_dispute,
}
use gen_ai_backend.AgentTurns.{Framed, StepReply}
use gen_ai_backend.DisputeAgent.{run_dispute_agent}
use gen_ai_backend.DisputeJudge.{
  SeedRow, GoldenCase, JudgeVerdict, Judge, points, judge_proposal, Metrics, threshold_gate,
}
use gen_ai_backend.EvalRuns.{EvalOutcome, EvalTables, RunTag, record_eval_run}

pub record EvalDb (V : Type 0) : Type 0 where
  pub records : List (EnrichmentRecord V)
  pub next_record : ℕ
  pub keys : List ApiKey
  pub disputes : List (Dispute × List AgentStep)

pub record Fresh : Type 0 where
  pub now : ℕ
  pub key_hash : String
  pub label : String
  pub dispute_id : String

pub data Got : Type 0 where
  unproposed : Status → Option Reason → Got
  graded : Proposal → JudgeVerdict → Got
  no_outcome : Got

pub data Checks : Type 0 where
  escalation_acceptable : Bool → Checks
  against_golden : (classification resolution grounded_at_least_1 : Bool) → Checks
  unchecked : Checks

abbrev pub Expected : Type 0
Expected = Option (Class × Resolution)

abbrev pub Outcome : Type 0
Outcome = EvalOutcome Expected Got Checks

abbrev resolution_eq : Resolution → Resolution → Bool
resolution_eq uphold uphold = true
resolution_eq deny deny = true
resolution_eq needs_human needs_human = true
resolution_eq _ _ = false

abbrev pub expectation : GoldenCase → Expected
expectation c = some (c.expected_class, c.expected_resolution)

abbrev pub escalated_outcome : GoldenCase → Dispute → Outcome
escalated_outcome c d =
    let ok = resolution_eq c.expected_resolution needs_human in
    record {
      id = c.id;
      expected = expectation c;
      got = unproposed d.status d.escalation_reason;
      checks = escalation_acceptable ok;
      error = none;
      all_correct = ok;
    }

abbrev pub judged_outcome : GoldenCase → Proposal → JudgeVerdict → Outcome
judged_outcome c p v =
    let classification = v.classification_correct in
    let resolution = resolution_eq p.resolution c.expected_resolution in
    let traceable = leb 1 (points v.grounded) in
    record {
      id = c.id;
      expected = expectation c;
      got = graded p v;
      checks = against_golden classification resolution traceable;
      error = none;
      all_correct = classification && resolution && traceable;
    }

abbrev pub crashed : GoldenCase → Raised → Outcome
crashed c e = record {
  id = c.id;
  expected = none;
  got = no_outcome;
  checks = unchecked;
  error = some e;
  all_correct = false;
}

abbrev pub Row : Type 0
Row = Outcome × Option JudgeVerdict

abbrev pub with_verdict : GoldenCase → Proposal → Attempt JudgeVerdict → Attempt Row
with_verdict c p (raised e) = raised e
with_verdict c p (returned v) = returned (judged_outcome c p v, some v)

abbrev pub with_proposal : Judge → GoldenCase → List AgentStep → Option Proposal → Attempt Row
with_proposal judge c trail none = raised (plain value_error)
with_proposal judge c trail (some p) = with_verdict c p (judge_proposal judge c p trail)

abbrev pub judged : Judge → GoldenCase → Dispute × List AgentStep × Option Raised → Attempt Row
judged judge c (d, trail, some e) = raised e
judged judge c (d, trail, none) =
    if is_proposed d.status
    then with_proposal judge c trail d.proposal
    else returned (escalated_outcome c d, none)

abbrev element : ℕ → List ℕ → Attempt (Option ℕ)
element i [] = raised (plain index_error)
element zero (x ∷ xs) = returned (some x)
element (suc i) (x ∷ xs) = element i xs

abbrev disputed_id : Option ℕ → List ℕ → Attempt (Option ℕ)
disputed_id none ids = returned none
disputed_id (some i) [] = returned none
disputed_id (some i) (x ∷ xs) = element i (x ∷ xs)

abbrev pub on_case : GoldenCase → Attempt Row → Row
on_case c (raised e) = (crashed c e, none)
on_case c (returned row) = row

abbrev pub collected : Option JudgeVerdict → List JudgeVerdict → List JudgeVerdict
collected none vs = vs
collected (some v) vs = v ∷ vs

module _ {V : Type 0} where
  abbrev seeds : ℕ → ℕ → List SeedRow → List (EnrichmentRecord V)
  seeds now next [] = []
  seeds now next (r ∷ rs) =
      record {
        id = next;
        narration = r.narration;
        merchant = r.merchant;
        category = r.category;
        transaction_type = r.transaction_type;
        created_at = now;
        embedding = none;
      }
      ∷ seeds now (suc next) rs

  abbrev seeded_ids : List (EnrichmentRecord V) → List ℕ
  seeded_ids [] = []
  seeded_ids (r ∷ rs) = r.id ∷ seeded_ids rs

  module _ (tools : List (EnrichmentRecord V) → Toolbox)
      (ask : List (EnrichmentRecord V) → Dispute → List Framed → Attempt StepReply)
      (judge : Judge) where
    abbrev pub dispute_run :
        Fresh → EvalDb V → GoldenCase → Option ℕ → Dispute × List AgentStep × Option Raised
    dispute_run f db c enrichment_id =
        run_dispute_agent (tools db.records) (ask db.records) f.now
          (create_dispute f.now f.dispute_id f.key_hash enrichment_id c.claim_text) []

    abbrev pub disputed :
        Fresh → EvalDb V → GoldenCase → Attempt (Option ℕ) → EvalDb V × Attempt Row
    disputed f db c (raised e) = (db, raised e)
    disputed f db c (returned enrichment_id) =
        let run = dispute_run f db c enrichment_id in
        (
          record db {
            keys = insert_api_key f.now f.key_hash f.label db.keys;
            disputes = db.disputes ++ (run.0, run.1) ∷ [];
          },
          judged judge c run,
        )

    unfoldable pub run_one_case : Fresh → EvalDb V → GoldenCase → EvalDb V × Attempt Row
    run_one_case f db c =
        let rows = seeds f.now db.next_record c.seed_enrichments in
        let db' : EvalDb V = record db {
          records = db.records ++ rows;
          next_record = db.next_record + length rows;
        } in
        disputed f db' c (disputed_id c.disputed_index (seeded_ids rows))

    unfoldable pub run_cases :
        EvalDb V → List (Fresh × GoldenCase) → EvalDb V × List Outcome × List JudgeVerdict
    run_cases db [] = (db, [], [])
    run_cases db ((f, c) ∷ cases) =
        let answer = run_one_case f db c in
        let row = on_case c answer.1 in
        let rest = run_cases answer.0 cases in (rest.0, row.0 ∷ rest.1, collected row.1 rest.2)

-- What the evaluation leaves, and its exit code.
pub record Report (V : Type 0) : Type 0 where
  pub db : EvalDb V
  pub outcomes : List Outcome
  pub gate : Option Metrics
  pub tables : EvalTables Expected Got
  pub exit_code : ℕ

abbrev notes : Bool → Option String
notes true = some "dispute-eval p6-judge-v1 gate=pass"
notes false = some "dispute-eval p6-judge-v1 gate=FAIL"

-- A record of the run that fails does not change the verdict.
abbrev kept_tables :
    EvalTables Expected Got → Attempt (EvalTables Expected Got) → EvalTables Expected Got
kept_tables t (raised e) = t
kept_tables t (returned t') = t'

abbrev pub exit_of : Bool → ℕ
exit_of true = 0
exit_of false = 1

module _ {V : Type 0} where
  abbrev pub reported :
      RunTag
      → EvalTables Expected Got
      → EvalDb V × List Outcome × List JudgeVerdict
      → Bool × Option Metrics
      → Report V
  reported tag t (db, outcomes, verdicts) (passed, metrics) = record {
    db = db;
    outcomes = outcomes;
    gate = metrics;
    tables = kept_tables t (record_eval_run (record tag { notes = notes passed }) outcomes t);
    exit_code = exit_of passed;
  }

  -- `main`, from the empty database that it makes.
  unfoldable pub run_eval :
      (List (EnrichmentRecord V) → Toolbox)
      → (List (EnrichmentRecord V) → Dispute → List Framed → Attempt StepReply)
      → Judge
      → RunTag
      → EvalTables Expected Got
      → EvalDb V
      → List (Fresh × GoldenCase)
      → Report V
  run_eval tools ask judge tag t db cases =
      let run = run_cases tools ask judge db cases in reported tag t run (threshold_gate run.2)
