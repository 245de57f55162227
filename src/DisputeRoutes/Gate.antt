-- ===== src/DisputeRoutes/Gate.antt =====
-- The human gate: who can cross it and from where.
use gen_ai_backend.Prelude.{
  ℕ, String, str_eq, eq_iff, ◌≡◌, refl, true, false, ◌&&◌, Bool-cases, inl, inr, Option, none, some,
  List, [], ◌∷◌, All, arith,
}
use gen_ai_backend.Errors.{Raised}
use gen_ai_backend.Disputes.{
  AgentStep, Dispute, approved, is_proposed, get_dispute_owned_by, mark_approved, mark_rejected,
}
use gen_ai_backend.DisputeReads.{not_found, disputes_get}
use gen_ai_backend.DisputeRoutes.{
  http, write_dispute, disputes_approve, disputes_reject, disputes_run,
}

-- Every dispute of that id, if there is one, is another key's.
abbrev pub IsStranger : String → String → List Dispute → Type 0
IsStranger key_hash dispute_id ds =
    All (λ (d : Dispute). d.id ≡ dispute_id → str_eq d.api_key_hash key_hash ≡ false) ds

owned-IsStranger :
    (id k : String) (ds : List Dispute) → IsStranger k id ds → get_dispute_owned_by id k ds ≡ none
unfolding get_dispute_owned_by
owned-IsStranger id k [] h = refl
owned-IsStranger id k (d ∷ ds) h = elim (Bool-cases (str_eq d.id id && str_eq d.api_key_hash k)) [
  | inl y ↦ absurd (
      let other = h.0 ((eq_iff d.id id).0 (ground arith)) in
      let wrong : false ≡ true = ground arith in cc)
  | inr n ↦ rw n (owned-IsStranger id k ds h.1)
]

-- To a key that has no dispute of that id, whether another key has one or nobody, every route of one
-- dispute answers the same, a 404, and changes nothing, whatever a run would do: reading it, running
-- it, approving and rejecting it.
pub strangers_see_nothing :
    (now : ℕ) (reason id k : String) (run : Dispute → Dispute × List AgentStep × Option Raised)
    (steps : String → List AgentStep) (ds : List Dispute)
    → IsStranger k id ds
    → (disputes_get steps id k ds ≡ not_found)
      × (disputes_run run id k ds ≡ (ds, http 404))
      × (disputes_approve now id k ds ≡ (ds, http 404))
      × (disputes_reject now reason id k ds ≡ (ds, http 404))
unfolding disputes_get disputes_approve disputes_reject disputes_run
strangers_see_nothing now reason id k run steps ds h =
    let hidden = owned-IsStranger id k ds h in
    (rw hidden refl, rw hidden refl, rw hidden refl, rw hidden refl)

owned-write_dispute :
    (id k : String) (new : Dispute) (ds : List Dispute) (d : Dispute)
    → get_dispute_owned_by id k ds ≡ some d
    → str_eq new.id id ≡ true
    → str_eq new.api_key_hash k ≡ true
    → get_dispute_owned_by id k (write_dispute new ds) ≡ some new
unfolding get_dispute_owned_by
owned-write_dispute id k new [] d h i a = ground arith
owned-write_dispute id k new (x ∷ xs) d h i a =
    ground (
      arith,
      owned-write_dispute id k new xs d,
      eq_iff x.id new.id,
      eq_iff x.id id,
      eq_iff new.id id,
    )

owner_of :
    (id k : String) (ds : List Dispute) (d : Dispute)
    → get_dispute_owned_by id k ds ≡ some d
    → (str_eq d.id id ≡ true) × (str_eq d.api_key_hash k ≡ true)
unfolding get_dispute_owned_by
owner_of id k [] d h = ground arith
owner_of id k (x ∷ xs) d h = elim (Bool-cases (str_eq x.id id && str_eq x.api_key_hash k)) [
  | inl y ↦ ground arith
  | inr n ↦ owner_of id k xs d (rw n at h)
]

-- Once an owner has approved a PROPOSED dispute, the approval stands: it is the row that the owner
-- reads, and every further approval or rejection is a 409 that changes nothing.
pub approval_stands :
    (now later : ℕ) (reason id k : String) (ds : List Dispute) (d : Dispute)
    → get_dispute_owned_by id k ds ≡ some d
    → is_proposed d.status ≡ true
    → let ds' = (disputes_approve now id k ds).0 in
      (get_dispute_owned_by id k ds'
        ≡ some (record d { status = approved; resolved_at = some now }))
      × (disputes_approve later id k ds' ≡ (ds', http 409))
      × (disputes_reject later reason id k ds' ≡ (ds', http 409))
unfolding disputes_approve disputes_reject mark_approved mark_rejected
approval_stands now later reason id k ds d h p =
    let (i, a) = owner_of id k ds d h in
    let new : Dispute = record d { status = approved; resolved_at = some now } in
    let held = owned-write_dispute id k new ds d h i a in
    rw (h, p) (held, rw held refl, rw held refl)
