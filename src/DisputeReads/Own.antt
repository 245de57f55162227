-- ===== src/DisputeReads/Own.antt =====
-- narration-enrichment/src/narration_enrichment/main.py: a caller reads its own disputes only.
use gen_ai_backend.Prelude.{
  ℕ, ◌≤◌, ◌≡◌, refl, ◌&&◌, String, str_eq, eq_iff, Bool-cases, inl, inr, Option, none, some, List,
  [], ◌∷◌, ◌++◌, All, All-take, length, length-take, arith, if◌then◌else◌,
}
use gen_ai_backend.Prelude.Sort.{sort_by, All-sort_by, IsOrdered, sort_by-sorts, IsOrdered-take}
use gen_ai_backend.Disputes.{Dispute, AgentStep, create_dispute, get_dispute_owned_by}
use gen_ai_backend.DisputeReads.{
  newest_first, owned_by, disputes_list, list_disputes_for_key, disputes_create, disputes_get,
  detail, not_found,
}

All-owned_by :
    (k : String) (ds : List Dispute) → All (λ (d : Dispute). d.api_key_hash ≡ k) (owned_by k ds)
All-owned_by k [] = tt
All-owned_by k (d ∷ ds) = elim (Bool-cases (str_eq d.api_key_hash k)) [
  | inl y ↦ rw y ((eq_iff d.api_key_hash k).0 y, All-owned_by k ds)
  | inr n ↦ rw n (All-owned_by k ds)
]

-- Whatever the table, a list of disputes holds at most `limit` of them, each of the caller's, the
-- newest first.
disputes_list_lem :
    (k : String) (limit : ℕ) (ds : List Dispute)
    → let listed = disputes_list k limit ds in
      All (λ (d : Dispute). d.api_key_hash ≡ k) listed
      × IsOrdered newest_first listed
      × (length listed ≤ limit)
unfolding list_disputes_for_key
disputes_list_lem k limit ds =
    let sorted = sort_by newest_first (owned_by k ds) in
    (
      All-take (λ (d : Dispute). d.api_key_hash ≡ k) limit sorted
          (All-sort_by (λ (d : Dispute). d.api_key_hash ≡ k) newest_first (owned_by k ds)
            (All-owned_by k ds)),
      IsOrdered-take newest_first limit sorted (
          sort_by-sorts newest_first (λ x y h. ground arith) (λ x y z h g. ground arith)
            (owned_by k ds)),
      omega (arith, length-take limit sorted),
    )

owned_by-snoc :
    (id k : String) (ds : List Dispute) (d : Dispute)
    → get_dispute_owned_by id k ds ≡ none
    → get_dispute_owned_by id k (ds ++ d ∷ [])
      ≡ (if str_eq d.id id && str_eq d.api_key_hash k then some d else none)
unfolding get_dispute_owned_by
owned_by-snoc id k [] d h = refl
owned_by-snoc id k (x ∷ xs) d h = ground (arith, owned_by-snoc id k xs d)

-- With an id that is free under every key, a created dispute is read by its creator, as it was
-- created, and is not found by any other key.
created_is_private :
    (now : ℕ) (id k j claim_text : String) (enrichment_id : Option ℕ) (ds : List Dispute)
    (steps : String → List AgentStep)
    → get_dispute_owned_by id j ds ≡ none
    → let created = disputes_create now id k enrichment_id claim_text ds in
      disputes_get steps id j created.0
      ≡ (if str_eq k j then detail created.1 (steps id) else not_found)
unfolding disputes_create disputes_get create_dispute
created_is_private now id k j claim_text enrichment_id ds steps h = ground (
  arith,
  owned_by-snoc id j ds (create_dispute now id k enrichment_id claim_text) h,
  eq_iff id id,
)
