-- ===== src/DisputeRoutes.antt =====
-- narration-enrichment/src/narration_enrichment/main.py: the routes of a dispute, `disputes_run` and the
-- human gate, `disputes_approve` and `disputes_reject`. The table is a list of disputes; a route reads
-- the row that the caller owns and writes that row back.
pub mod Gate
mod Examples
use gen_ai_backend.Prelude.{
  ℕ, String, str_eq, Bool, true, false, ◌&&◌, Option, none, some, List, [], ◌∷◌, if◌then◌else◌,
}
use gen_ai_backend.Errors.{
  Kind, timeout, api_error, instructor_retry, circuit_open, rate_limited, index_error, value_error,
  integrity_error, other, Raised,
}
use gen_ai_backend.Disputes.{Dispute, AgentStep, get_dispute_owned_by, mark_approved, mark_rejected}

pub data Reply : Type 0 where
  ok : Dispute → Reply
  http : ℕ → Reply

-- The commit of a changed row, by its primary key.
abbrev pub write_dispute : Dispute → List Dispute → List Dispute
write_dispute new [] = []
write_dispute new (d ∷ ds) =
    let rest = write_dispute new ds in if str_eq d.id new.id then new ∷ rest else d ∷ rest

abbrev settle : Option Dispute → List Dispute → List Dispute × Reply
settle none ds = (ds, http 409)
settle (some d) ds = (write_dispute d ds, ok d)

abbrev approve_found : ℕ → List Dispute → Option Dispute → List Dispute × Reply
approve_found now ds none = (ds, http 404)
approve_found now ds (some d) = settle (mark_approved now d) ds

pub disputes_approve : ℕ → String → String → List Dispute → List Dispute × Reply
disputes_approve now dispute_id key_hash ds =
    approve_found now ds (get_dispute_owned_by dispute_id key_hash ds)

abbrev reject_found : ℕ → String → List Dispute → Option Dispute → List Dispute × Reply
reject_found now reason ds none = (ds, http 404)
reject_found now reason ds (some d) = settle (mark_rejected now reason d) ds

-- The reason is the stripped one.
pub disputes_reject : ℕ → String → String → String → List Dispute → List Dispute × Reply
disputes_reject now reason dispute_id key_hash ds =
    reject_found now reason ds (get_dispute_owned_by dispute_id key_hash ds)

-- The handlers of `disputes_run`, in their order.
pub run_error_status : Raised → ℕ
run_error_status e = elim e.kind [
  | value_error ↦ 409
  | instructor_retry ↦ 503
  | timeout ↦ 504
  | api_error c ↦ 503
  | circuit_open ms ↦ 500
  | rate_limited ms ↦ 500
  | index_error ↦ 500
  | integrity_error ↦ 500
  | other ↦ 500
]

abbrev run_reply : Dispute × List AgentStep × Option Raised → Reply
run_reply (d, trail, none) = ok d
run_reply (d, trail, some e) = http (run_error_status e)

-- `run` is `run_dispute_agent` on the row and its trail; the commits of a run that raises stay.
abbrev run_found :
    (Dispute → Dispute × List AgentStep × Option Raised)
    → List Dispute
    → Option Dispute
    → List Dispute × Reply
run_found run ds none = (ds, http 404)
run_found run ds (some d) = (write_dispute (run d).0 ds, run_reply (run d))

pub disputes_run :
    (Dispute → Dispute × List AgentStep × Option Raised)
    → String
    → String
    → List Dispute
    → List Dispute × Reply
disputes_run run dispute_id key_hash ds =
    run_found run ds (get_dispute_owned_by dispute_id key_hash ds)
