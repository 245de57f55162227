-- ===== src/Disputes.antt =====
-- narration-enrichment/src/narration_enrichment/db.py: the tables `disputes` and `agent_steps`, the
-- named transitions of the class `Dispute` and the queries. A row is looked up by its key; a state
-- here is one dispute with its trail. `none` is the ValueError of a transition that is not allowed.

use gen_ai_backend.Prelude.{
  ℕ, ◌+◌, String, str_eq, Bool, true, false, ◌&&◌, ◌||◌, ◌==◌, Option, none, some, List, [], ◌∷◌,
  ◌++◌, ltb, if◌then◌else◌,
}
use gen_ai_backend.Prelude.Text.{Text}

pub data Status : Type 0 where
  open_ evidence_gathered proposed approved rejected escalated : Status

pub data Class : Type 0 where
  category_correction duplicate_charge unrecognized amount_mismatch : Class

pub data Resolution : Type 0 where
  uphold deny needs_human : Resolution

-- dispute_agent.py `ResolutionProposal`, the contents of `proposal_json`
pub record Proposal : Type 0 where
  pub dispute_class : Class
  pub resolution : Resolution
  pub explanation : String
  pub evidence_ids : List ℕ

-- The reasons that the agent's loop gives, and a text of the model's.
pub data Reason : Type 0 where
  llm_budget step_budget : Reason
  said : String → Reason

pub record Dispute : Type 0 where
  pub id : String
  pub api_key_hash : String
  pub enrichment_id : Option ℕ
  pub claim_text : String
  pub dispute_class : Option Class
  pub status : Status
  pub escalation_reason : Option Reason
  pub rejection_reason : Option String
  pub proposal : Option Proposal
  pub llm_calls_used : ℕ
  pub created_at : ℕ
  pub resolved_at : Option ℕ

abbrev pub is_terminal : Status → Bool
is_terminal approved = true
is_terminal rejected = true
is_terminal escalated = true
is_terminal _ = false

abbrev pub is_open : Status → Bool
is_open open_ = true
is_open _ = false

abbrev pub is_proposed : Status → Bool
is_proposed proposed = true
is_proposed _ = false

abbrev pub is_running : Status → Bool
is_running open_ = true
is_running evidence_gathered = true
is_running _ = false

unfoldable pub create_dispute : ℕ → String → String → Option ℕ → String → Dispute
create_dispute now dispute_id api_key_hash enrichment_id claim_text = record {
  id = dispute_id;
  api_key_hash = api_key_hash;
  enrichment_id = enrichment_id;
  claim_text = claim_text;
  dispute_class = none;
  status = open_;
  escalation_reason = none;
  rejection_reason = none;
  proposal = none;
  llm_calls_used = 0;
  created_at = now;
  resolved_at = none;
}

unfoldable pub mark_evidence_gathered : Dispute → Option Dispute
mark_evidence_gathered d =
    if is_open d.status then some (record d { status = evidence_gathered }) else none

-- The class is one of the four by its type.
unfoldable pub mark_proposed : Class → Proposal → Dispute → Option Dispute
mark_proposed c p d =
    if is_running d.status
    then some (record d { dispute_class = some c; proposal = some p; status = proposed })
    else none

unfoldable pub mark_approved : ℕ → Dispute → Option Dispute
mark_approved now d =
    if is_proposed d.status
    then some (record d { status = approved; resolved_at = some now })
    else none

unfoldable pub mark_rejected : ℕ → String → Dispute → Option Dispute
mark_rejected now reason d =
    if is_proposed d.status
    then some
        (record d { rejection_reason = some reason; status = rejected; resolved_at = some now })
    else none

unfoldable pub mark_escalated : ℕ → Reason → Dispute → Option Dispute
mark_escalated now reason d =
    if is_terminal d.status
    then none
    else some
        (record d { escalation_reason = some reason; status = escalated; resolved_at = some now })

unfoldable pub get_dispute_owned_by : String → String → List Dispute → Option Dispute
get_dispute_owned_by dispute_id api_key_hash [] = none
get_dispute_owned_by dispute_id api_key_hash (d ∷ ds) =
    let rest = get_dispute_owned_by dispute_id api_key_hash ds in
    if str_eq d.id dispute_id && str_eq d.api_key_hash api_key_hash then some d else rest

-- The compare-and-set on the lifetime budget.
unfoldable pub reserve_llm_call : ℕ → Dispute → Dispute × Bool
reserve_llm_call max_calls d =
    if ltb d.llm_calls_used max_calls
    then (record d { llm_calls_used = d.llm_calls_used + 1 }, true)
    else (d, false)

pub data Action : Type 0 where
  tool_call classify propose escalate : Action

pub data Observation : Type 0 where
  no_tool_name unknown_class invalid_proposal : Observation
  tool_answer : Text → Observation
  classified : Class → Observation
  proposed_as : Resolution → Class → Observation
  escalated_for : Reason → Observation

pub record AgentStep : Type 0 where
  pub step_index : ℕ
  pub action : Action
  pub tool_name : Option String
  pub tool_args : Option String
  pub observation : Option Observation

-- The unique constraint `uq_agent_steps_dispute_index`.
abbrev pub index_taken : ℕ → List AgentStep → Bool
index_taken i [] = false
index_taken i (s ∷ ss) = (s.step_index == i) || index_taken i ss

-- `none` is the IntegrityError of a taken index.
unfoldable pub append_agent_step : AgentStep → List AgentStep → Option (List AgentStep)
append_agent_step s trail = if index_taken s.step_index trail then none else some (trail ++ s ∷ [])
