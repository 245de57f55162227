-- ===== src/DisputeAgent.antt =====
-- narration-enrichment/src/narration_enrichment/dispute_agent.py: `run_dispute_agent`. The model is a
-- parameter, asked with what the prompt is made of: the dispute and the observations so far; so are
-- the tools. A run has the dispute to itself; its commits are the dispute and the trail that are in
-- the answer, also of a run that raises.
pub mod Turns
pub mod Guarantees
mod Examples
use gen_ai_backend.Prelude.{
  ℕ, zero, suc, ◌+◌, String, str_eq, Bool, true, false, not, ◌||◌, ◌==◌, Option, none, some, List,
  [], ◌∷◌, ◌++◌, length, ltb, if◌then◌else◌,
}
use gen_ai_backend.Errors.{Raised, plain, Attempt, returned, raised, value_error, integrity_error}
use gen_ai_backend.Tools.{ToolResult, ToolOutcome, Toolbox, execute_tool, result_ids}
use gen_ai_backend.Disputes.{
  Class, category_correction, duplicate_charge, unrecognized, amount_mismatch, Resolution, Proposal,
  Reason, llm_budget, step_budget, said, Dispute, is_open, is_proposed, is_running,
  mark_evidence_gathered, mark_proposed, mark_escalated, reserve_llm_call, Action, tool_call,
  classify, propose, escalate, Observation, no_tool_name, unknown_class, invalid_proposal,
  tool_answer, classified, proposed_as, escalated_for, AgentStep, append_agent_step,
}
use gen_ai_backend.AgentTurns.{
  Framed, Run, StepReply, Turn, again, agent_max_llm_calls, agent_max_steps, chosen_class,
  classify_turn, ended, escalate_turn, forced_landing, named_class, propose_turn, recorded, refused,
  tool_call_turn,
}

module _ (tools : Toolbox) (ask : Dispute → List Framed → Attempt StepReply) (now : ℕ) where
  abbrev pub act_on : StepReply → Run → Action → Turn
  act_on reply r tool_call = tool_call_turn tools reply r reply.tool_name
  act_on reply r classify = classify_turn r (named_class reply.dispute_class)
  act_on reply r propose =
      propose_turn reply r (chosen_class reply.dispute_class r.pending_class) reply.resolution
  act_on reply r escalate = escalate_turn now reply r

  abbrev pub on_reply : Run → Attempt StepReply → Turn
  on_reply r (raised e) = ended r.dispute r.trail (some e)
  on_reply r (returned reply) = act_on reply r reply.action

  -- One pass: the lifetime budget first, then one call of the model.
  abbrev pub one_pass : Run → Dispute × Bool → Turn
  one_pass r (d, false) = forced_landing now llm_budget r
  one_pass r (d, true) =
      let r' : Run = record r { dispute = d } in on_reply r' (ask d r.observations)

  abbrev pub answer_of : Turn → Dispute × List AgentStep × Option Raised
  answer_of (again r) = (r.dispute, r.trail, none)
  answer_of (ended d trail e) = (d, trail, e)

  abbrev pub loop_on :
      Turn
      → (Run → Dispute × List AgentStep × Option Raised)
      → Dispute × List AgentStep × Option Raised
  loop_on (again r) next = next r
  loop_on (ended d trail e) next = (d, trail, e)

  unfoldable pub agent_loop : ℕ → Run → Dispute × List AgentStep × Option Raised
  agent_loop zero r = answer_of (forced_landing now step_budget r)
  agent_loop (suc n) r =
      loop_on (one_pass r (reserve_llm_call agent_max_llm_calls r.dispute)) (agent_loop n)

  abbrev pub prior : List AgentStep → List Framed
  prior [] = []
  prior (s ∷ ss) = elim s.observation [ none ↦ prior ss | some o ↦ recorded o ∷ prior ss ]

  abbrev pub start : Dispute → List AgentStep → Run
  start d trail = record {
    dispute = d;
    trail = trail;
    next_index = length trail;
    observations = prior trail;
    evidence_ids = [];
    pending_class = d.dispute_class;
  }

  -- The dispute and its trail, as the run finds them.
  unfoldable pub run_dispute_agent :
      Dispute → List AgentStep → Dispute × List AgentStep × Option Raised
  run_dispute_agent d trail =
      if is_proposed d.status
      then (d, trail, none)
      else if is_running d.status
      then agent_loop agent_max_steps (start d trail)
      else (d, trail, refused)
