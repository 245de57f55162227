-- ===== src/AgentTurns/Sound.antt =====
-- What a pass of the loop keeps, and what a run lands on.
use gen_ai_backend.Prelude.{
  ℕ, ◌≡◌, refl, Bool, true, false, Option, none, some, List, [], ◌++◌, length,
}
use gen_ai_backend.Errors.{Raised, Attempt, raised}
use gen_ai_backend.Tools.{Toolbox}
use gen_ai_backend.Disputes.{
  Status, Proposal, Dispute, is_running, is_terminal, proposed, escalated, evidence_gathered, open_,
  approved, rejected, AgentStep,
}
use gen_ai_backend.AgentTurns.{StepReply, Framed, Run}
use gen_ai_backend.AgentTurns.Trail.{Consecutive, Earned}

abbrev pub evidence_of : Option Proposal → List ℕ
evidence_of none = []
evidence_of (some p) = p.evidence_ids

abbrev is_settled : Status → Bool
is_settled proposed = true
is_settled escalated = true
is_settled _ = false

-- A run that ends with no exception has settled the dispute; one that raises leaves it running.
abbrev status_after : Option Raised → Status → Bool
status_after none s = is_settled s
status_after (some e) s = is_running s

-- The exception is one that the model's call raised.
abbrev FromModel : (Dispute → List Framed → Attempt StepReply) → Option Raised → Type 0
FromModel ask none = Unit
FromModel ask (some e) = (d : Dispute) × (o : List Framed) × (ask d o ≡ raised e)

-- A running dispute, `steps` added to the trail it started with, all the evidence earned by them.
pub record Sound (tools : Toolbox) (before : List AgentStep) (used : ℕ) (r : Run) : Type 0 where
  pub running : is_running r.dispute.status ≡ true
  pub unproposed : r.dispute.proposal ≡ none
  pub steps : List AgentStep
  pub trail : r.trail ≡ before ++ steps
  pub numbered : Consecutive 0 r.trail
  pub index : r.next_index ≡ length r.trail
  pub evidence : Earned tools steps r.evidence_ids
  pub calls : r.dispute.llm_calls_used ≡ used

pub record Landed (tools : Toolbox) (ask : Dispute → List Framed → Attempt StepReply)
    (before : List AgentStep) (used : ℕ) (d : Dispute) (trail : List AgentStep) (e : Option Raised)
    : Type 0 where
  pub steps : List AgentStep
  pub appended : trail ≡ before ++ steps
  pub numbered : Consecutive 0 trail
  pub status : status_after e d.status ≡ true
  pub cause : FromModel ask e
  pub grounded : Earned tools steps (evidence_of d.proposal)
  pub calls : d.llm_calls_used ≡ used

pub not_terminal : (s : Status) → is_running s ≡ true → is_terminal s ≡ false
not_terminal open_ h = refl
not_terminal evidence_gathered h = refl
not_terminal proposed h = cc
not_terminal approved h = cc
not_terminal rejected h = cc
not_terminal escalated h = cc
