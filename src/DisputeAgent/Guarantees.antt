-- ===== src/DisputeAgent/Guarantees.antt =====
-- What a run of the agent guarantees, whatever the model answers.
use gen_ai_backend.Prelude.{
  ℕ, ◌+◌, ◌≤◌, ◌≡◌, refl, sym, true, false, Bool-cases, inl, inr, Option, none, List, if◌then◌else◌,
}
use gen_ai_backend.Errors.{Raised, Attempt}
use gen_ai_backend.Tools.{Toolbox}
use gen_ai_backend.Disputes.{
  Dispute, AgentStep, Status, is_running, is_proposed, is_terminal, approved, rejected, escalated,
  evidence_gathered, open_, proposed,
}
use gen_ai_backend.DisputeAgent.{run_dispute_agent}
use gen_ai_backend.AgentTurns.{StepReply, Framed, refused}
use gen_ai_backend.AgentTurns.Sound.{Sound, Landed}

-- A run landed with `u` calls spent in all, of which at most `n` are its own.
pub record Spent (tools : Toolbox) (ask : Dispute → List Framed → Attempt StepReply)
    (before : List AgentStep) (used n : ℕ) (result : Dispute × List AgentStep × Option Raised)
    : Type 0 where
  pub total : ℕ
  pub own : total ≤ used + n
  pub lifetime : total ≤ 8
  pub landed : Landed tools ask before total result.0 result.1 result.2

rests_or_ends :
    (s : Status) → is_running s ≡ false → is_terminal s ≡ (if is_proposed s then false else true)
rests_or_ends open_ h = sym h
rests_or_ends evidence_gathered h = sym h
rests_or_ends proposed h = refl
rests_or_ends approved h = refl
rests_or_ends rejected h = refl
rests_or_ends escalated h = refl

-- A run of a dispute that is PROPOSED or terminal changes nothing: it answers a PROPOSED one as it is
-- and refuses a terminal one.
pub agent_run_rests :
    (tools : Toolbox) (ask : Dispute → List Framed → Attempt StepReply) (now : ℕ) (d : Dispute)
    (trail : List AgentStep)
    → is_running d.status ≡ false
    → run_dispute_agent tools ask now d trail
      ≡ (d, trail, if is_terminal d.status then refused else none)
unfolding run_dispute_agent
agent_run_rests tools ask now d trail h = elim (Bool-cases (is_proposed d.status)) [
  | inl y ↦ rw (rests_or_ends d.status h, y) refl
  | inr n ↦ rw (rests_or_ends d.status h, n, h) refl
]
