-- ===== src/DisputeAgent/Examples.antt =====
-- A dispute that is looked into, classified and proposed, and one that is terminal.
use gen_ai_backend.Prelude.{◌≡◌, refl, Option, none, some, List, [], ◌∷◌, length}
use gen_ai_backend.Prelude.Text.{codes}
use gen_ai_backend.Errors.{Raised, Attempt, returned}
use gen_ai_backend.Tools.{Toolbox, execute_tool}
use gen_ai_backend.Disputes.{
  Dispute, proposed, escalated, AgentStep, create_dispute, propose, tool_call, uphold,
  mark_proposed, append_agent_step, reserve_llm_call,
}
use gen_ai_backend.DisputeAgent.{run_dispute_agent, agent_loop}
use gen_ai_backend.AgentTurns.{StepReply, Framed, class_of, collect_evidence_ids}
use gen_ai_backend.AgentTurns.Sound.{evidence_of}

abbrev dispute : Dispute
dispute = create_dispute 10 "d" "k" (some 7) "not mine"

abbrev tools : Toolbox
tools = record {
  registry = λ name. some (record { run = λ arguments. some (returned (9 ∷ 7 ∷ 9 ∷ [], "rows")) });
  dumps = λ result. codes "{}";
}

abbrev reply : StepReply
reply = record {
  action = tool_call;
  tool_name = some "find_transactions";
  arguments = none;
  dispute_class = some "unrecognized";
  resolution = some uphold;
  explanation = "";
  reason = "";
}

-- One tool call, then a proposal.
abbrev ask : Dispute → List Framed → Attempt StepReply
ask d [] = returned reply
ask d (o ∷ os) = returned (record reply { action = propose })

abbrev result : Dispute × List AgentStep × Option Raised
result = run_dispute_agent tools ask 20 dispute []

proposes :
    (result.0.status ≡ proposed)
    × (evidence_of result.0.proposal ≡ 7 ∷ 9 ∷ [])
    × (result.0.llm_calls_used ≡ 2)
    × (length result.1 ≡ 2)
unfolding run_dispute_agent agent_loop class_of collect_evidence_ids create_dispute mark_proposed
    append_agent_step reserve_llm_call execute_tool
proposes = (refl, refl, refl, refl)

abbrev closed : Dispute
closed = record dispute { status = escalated }
