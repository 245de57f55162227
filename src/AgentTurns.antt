-- ===== src/AgentTurns.antt =====
-- narration-enrichment/src/narration_enrichment/dispute_agent.py: what the loop of
-- `run_dispute_agent` does on each reply of the model, as a turn of the run.
pub mod Trail
pub mod Sound
use gen_ai_backend.Prelude.{
  ℕ, zero, suc, ◌+◌, String, str_eq, Bool, true, false, not, ◌||◌, ◌==◌, Option, none, some, List,
  [], ◌∷◌, ◌++◌, length, take, ltb, if◌then◌else◌,
}
use gen_ai_backend.Errors.{Raised, plain, Attempt, returned, raised, value_error, integrity_error}
use gen_ai_backend.Prelude.Text.{Text}
use gen_ai_backend.Tools.{ToolOutcome, Toolbox, execute_tool, result_ids}
use gen_ai_backend.Disputes.{
  Class, category_correction, duplicate_charge, unrecognized, amount_mismatch, Resolution, Proposal,
  Reason, llm_budget, step_budget, said, Dispute, is_open, is_proposed, is_running,
  mark_evidence_gathered, mark_proposed, mark_escalated, reserve_llm_call, Action, tool_call,
  classify, propose, escalate, Observation, no_tool_name, unknown_class, invalid_proposal,
  tool_answer, classified, proposed_as, escalated_for, AgentStep, append_agent_step,
}

-- `_AgentStepReply`
pub record StepReply : Type 0 where
  pub action : Action
  pub tool_name : Option String
  pub arguments : Option String
  pub dispute_class : Option String
  pub resolution : Option Resolution
  pub explanation : String
  pub reason : String

abbrev pub agent_max_steps : ℕ
agent_max_steps = 6

abbrev pub agent_max_llm_calls : ℕ
agent_max_llm_calls = 8

-- A framed observation of the prompt.
pub data Framed : Type 0 where
  recorded : Observation → Framed
  tool_line : String → Text → Framed

pub record Run : Type 0 where
  pub dispute : Dispute
  pub trail : List AgentStep
  pub next_index : ℕ
  pub observations : List Framed
  pub evidence_ids : List ℕ
  pub pending_class : Option Class

-- What a pass of the loop comes to: the next one, or the end, with the exception that ended it.
pub data Turn : Type 0 where
  again : Run → Turn
  ended : Dispute → List AgentStep → Option Raised → Turn

-- `s in DISPUTE_CLASSES`
unfoldable pub class_of : String → Option Class
class_of s =
    if str_eq s "category_correction"
    then some category_correction
    else if str_eq s "duplicate_charge"
    then some duplicate_charge
    else if str_eq s "unrecognized"
    then some unrecognized
    else if str_eq s "amount_mismatch"
    then some amount_mismatch
    else none

abbrev pub or_text : String → String → String
or_text s default = if str_eq s "" then default else s

-- The set of ids, kept sorted.
abbrev pub add_id : ℕ → List ℕ → List ℕ
add_id i [] = i ∷ []
add_id i (x ∷ xs) =
    let rest = add_id i xs in if i == x then x ∷ xs else if ltb i x then i ∷ x ∷ xs else x ∷ rest

abbrev pub add_ids : List ℕ → List ℕ → List ℕ
add_ids [] seen = seen
add_ids (i ∷ is) seen = add_ids is (add_id i seen)

unfoldable pub collect_evidence_ids : ToolOutcome → List ℕ → List ℕ
collect_evidence_ids o seen = if o.ok then add_ids (result_ids o.result) seen else seen

abbrev pub step_row : ℕ → Action → Observation → AgentStep
step_row i action o = record {
  step_index = i;
  action = action;
  tool_name = none;
  tool_args = none;
  observation = some o;
}

-- A statement that appends to the trail, and what follows it.
abbrev after_append : Option (List AgentStep) → Run → (List AgentStep → Turn) → Turn
after_append none r next = ended r.dispute r.trail (some (plain integrity_error))
after_append (some trail) r next = next trail

abbrev pub after_mark :
    Option Dispute → Run → List AgentStep → Option Raised → (Dispute → Turn) → Turn
after_mark none r trail e next = ended r.dispute trail e
after_mark (some d) r trail e next = next d

abbrev pub refused : Option Raised
refused = some (plain value_error)

-- Append a step with its observation and go on.
abbrev pub note_step : Action → Observation → Run → Turn
note_step action o r =
    after_append (append_agent_step (step_row r.next_index action o) r.trail) r (λ trail.
      again (record r {
        trail = trail;
        next_index = r.next_index + 1;
        observations = r.observations ++ recorded o ∷ [];
      }))

-- `row.observation = ...` on the row just appended.
abbrev pub set_observation : ℕ → Observation → List AgentStep → List AgentStep
set_observation i o [] = []
set_observation i o (s ∷ ss) =
    (if s.step_index == i then record s { observation = some o } else s) ∷ set_observation i o ss

-- `json.dumps(step.arguments or {})`, of arguments that are kept as their JSON text.
abbrev pub args_text : Option String → String
args_text none = "{}"
args_text (some text) = text

module _ (tools : Toolbox) where
  abbrev pub tool_turn : String → Option String → Run → Turn
  tool_turn name arguments r =
      let intention : AgentStep = record {
        step_index = r.next_index;
        action = tool_call;
        tool_name = some name;
        tool_args = some (args_text arguments);
        observation = none;
      } in
      let outcome = execute_tool tools.registry name arguments in
      let observed = take 2000 (tools.dumps outcome.result) in
      after_append (append_agent_step intention r.trail) r (λ trail. again (record r {
        trail = set_observation r.next_index (tool_answer observed) trail;
        next_index = r.next_index + 1;
        observations = r.observations ++ tool_line outcome.tool_name observed ∷ [];
        evidence_ids = collect_evidence_ids outcome r.evidence_ids;
      }))

  abbrev pub tool_call_turn : StepReply → Run → Option String → Turn
  tool_call_turn reply r none = note_step tool_call no_tool_name r
  tool_call_turn reply r (some name) =
      if str_eq name ""
      then note_step tool_call no_tool_name r
      else tool_turn name reply.arguments r

abbrev pub classify_turn : Run → Option Class → Turn
classify_turn r none = note_step classify unknown_class r
classify_turn r (some c) =
    let r' : Run = record r { pending_class = some c } in
    if is_open r.dispute.status
    then after_mark (mark_evidence_gathered r.dispute) r r.trail refused
        (λ d. note_step classify (classified c) (record r' { dispute = d }))
    else note_step classify (classified c) r'

-- `step.dispute_class or pending_class`, if it is a class.
abbrev pub chosen_class : Option String → Option Class → Option Class
chosen_class none pending = pending
chosen_class (some s) pending = if str_eq s "" then pending else class_of s

abbrev pub named_class : Option String → Option Class
named_class none = none
named_class (some s) = class_of s

abbrev pub propose_turn : StepReply → Run → Option Class → Option Resolution → Turn
propose_turn reply r (some c) (some resolution) =
    let proposal : Proposal = record {
      dispute_class = c;
      resolution = resolution;
      explanation = or_text reply.explanation "(no explanation provided)";
      evidence_ids = r.evidence_ids;
    } in
    after_append
      (append_agent_step (step_row r.next_index propose (proposed_as resolution c)) r.trail) r
      (λ trail.
        after_mark (mark_proposed c proposal r.dispute) r trail refused (λ d. ended d trail none))
propose_turn reply r _ _ = note_step propose invalid_proposal r

abbrev pub escalate_turn : ℕ → StepReply → Run → Turn
escalate_turn now reply r =
    let reason = said (or_text reply.reason "agent_requested") in
    after_append (append_agent_step (step_row r.next_index escalate (escalated_for reason)) r.trail)
      r
      (λ trail.
        after_mark (mark_escalated now reason r.dispute) r trail refused (λ d. ended d trail none))

abbrev pub forced_landing : ℕ → Reason → Run → Turn
forced_landing now reason r =
    after_mark (mark_escalated now reason r.dispute) r r.trail refused (λ d. ended d r.trail none)
