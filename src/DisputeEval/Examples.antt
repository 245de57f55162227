-- ===== src/DisputeEval/Examples.antt =====
-- Two golden cases: the agent gives the first one up, against what is expected, and proposes in the
-- second. The judge says that the class is wrong, which the code corrects.
use gen_ai_backend.Prelude.{
  String, str_eq, ◌≡◌, refl, ◌↔◌, Bool, true, false, none, some, List, [], ◌∷◌, if◌then◌else◌,
}
use gen_ai_backend.Prelude.Text.{codes}
use gen_ai_backend.Errors.{Attempt, returned}
use gen_ai_backend.Tools.{Toolbox}
use gen_ai_backend.Enrichments.{EnrichmentRecord}
use gen_ai_backend.Disputes.{
  Dispute, unrecognized, deny, propose, escalate, create_dispute, mark_proposed, mark_escalated,
  append_agent_step, reserve_llm_call,
}
use gen_ai_backend.AgentTurns.{Framed, StepReply, class_of, collect_evidence_ids}
use gen_ai_backend.DisputeAgent.{run_dispute_agent, agent_loop}
use gen_ai_backend.EvalRuns.{EvalTables, RunTag, record_eval_run}
use gen_ai_backend.DisputeJudge.{GoldenCase, Judge, full, judge_proposal, threshold_gate}
use gen_ai_backend.DisputeEval.{
  EvalDb, Fresh, Expected, Got, Outcome, Report, run_one_case, run_cases, run_eval,
}
use gen_ai_backend.DisputeEval.Gate.{PassesGate, exit_code_exact}

abbrev given_up : GoldenCase
given_up = record {
  id = "g1";
  claim_text = "lost";
  seed_enrichments = [];
  disputed_index = none;
  expected_class = unrecognized;
  expected_resolution = deny;
  key_facts = "";
}

abbrev worked : GoldenCase
worked = record given_up { id = "g2"; claim_text = "not mine" }

abbrev fresh : String → Fresh
fresh id = record { now = 10; key_hash = id; label = id; dispute_id = id }

abbrev tools : List (EnrichmentRecord Unit) → Toolbox
tools records = record { registry = λ name. none; dumps = λ result. codes "{}" }

abbrev ask : List (EnrichmentRecord Unit) → Dispute → List Framed → Attempt StepReply
ask records d observations = returned (record {
  action = if str_eq d.claim_text "lost" then escalate else propose;
  tool_name = none;
  arguments = none;
  dispute_class = some "unrecognized";
  resolution = some deny;
  explanation = "";
  reason = "unclear";
})

abbrev judge : Judge
judge golden_case proposal trail = returned (record {
  classification_correct = false;
  grounded = full;
  policy_compliant = full;
  reasoning = "";
})

abbrev tag : RunTag
tag = record { run_id = "r"; started_at = 1; finished_at = 2; model_name = "m"; notes = none }

abbrev tables : EvalTables Expected Got
tables = record { runs = []; results = []; next_id = 1 }

abbrev empty_db : EvalDb Unit
empty_db = record { records = []; next_record = 1; keys = []; disputes = [] }

abbrev cases : List (Fresh × GoldenCase)
cases = (fresh "a", given_up) ∷ (fresh "b", worked) ∷ []

abbrev report : Report Unit
report = run_eval tools ask judge tag tables empty_db cases

abbrev passes : List Outcome → List Bool
passes [] = []
passes (o ∷ os) = o.all_correct ∷ passes os

-- The case that was given up fails and the gate passes.
missed_case_passes : (passes report.outcomes ≡ false ∷ true ∷ []) × (report.exit_code ≡ 0)
unfolding run_eval run_cases run_one_case run_dispute_agent agent_loop class_of collect_evidence_ids
    create_dispute mark_proposed mark_escalated append_agent_step reserve_llm_call judge_proposal
    threshold_gate record_eval_run
missed_case_passes = (refl, refl)

exit_code_exact_example : (report.exit_code ≡ 0) ↔ PassesGate report.outcomes
exit_code_exact_example = exit_code_exact tools ask judge tag tables empty_db cases
