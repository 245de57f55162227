-- ===== src/DisputeReads.antt =====
-- narration-enrichment/src/narration_enrichment/main.py: the routes `disputes_create`, `disputes_list` and
-- `disputes_get`, with `list_disputes_for_key` of db.py. The steps of each dispute are an argument.
-- Disputes of one `created_at`, which SQL leaves in any order, stay in the order of their rows.
pub mod Own
use gen_ai_backend.Prelude.{
  ℕ, String, str_eq, Bool, leb, Option, none, some, List, [], ◌∷◌, ◌++◌, take, if◌then◌else◌,
}
use gen_ai_backend.Prelude.Sort.{sort_by}
use gen_ai_backend.Disputes.{Dispute, AgentStep, create_dispute, get_dispute_owned_by}

-- The id is a fresh uuid, the text the stripped one.
unfoldable pub disputes_create :
    ℕ → String → String → Option ℕ → String → List Dispute → List Dispute × Dispute
disputes_create now dispute_id key_hash enrichment_id claim_text ds =
    let d = create_dispute now dispute_id key_hash enrichment_id claim_text in (ds ++ d ∷ [], d)

abbrev pub newest_first : Dispute → Dispute → Bool
newest_first a b = leb b.created_at a.created_at

abbrev pub owned_by : String → List Dispute → List Dispute
owned_by key_hash [] = []
owned_by key_hash (d ∷ ds) =
    let rest = owned_by key_hash ds in if str_eq d.api_key_hash key_hash then d ∷ rest else rest

unfoldable pub list_disputes_for_key : String → ℕ → List Dispute → List Dispute
list_disputes_for_key key_hash limit ds = take limit (sort_by newest_first (owned_by key_hash ds))

abbrev pub disputes_list : String → ℕ → List Dispute → List Dispute
disputes_list key_hash limit ds = list_disputes_for_key key_hash limit ds

-- `DisputeDetail`, or a 404.
pub data Detail : Type 0 where
  detail : Dispute → List AgentStep → Detail
  not_found : Detail

abbrev pub detail_of : (String → List AgentStep) → Option Dispute → Detail
detail_of list_agent_steps none = not_found
detail_of list_agent_steps (some d) = detail d (list_agent_steps d.id)

unfoldable pub disputes_get : (String → List AgentStep) → String → String → List Dispute → Detail
disputes_get list_agent_steps dispute_id key_hash ds =
    detail_of list_agent_steps (get_dispute_owned_by dispute_id key_hash ds)
