-- ===== src/PolicyList.antt =====
-- narration-enrichment/src/narration_enrichment/db.py: `list_policy_docs`. Documents of one `ingested_at`,
-- which SQL leaves in any order, stay in the order of their rows.
use gen_ai_backend.Prelude.{ℕ, Bool, leb, List, [], ◌∷◌, length}
use gen_ai_backend.Prelude.Sort.{sort_by}
use gen_ai_backend.PolicyStore.{PolicyDoc, PolicyChunk, Tables, chunks_of}

abbrev pub newest_first : PolicyDoc × ℕ → PolicyDoc × ℕ → Bool
newest_first a b = leb b.0.ingested_at a.0.ingested_at

module _ {V : Type 0} where
  -- The outer join, a document with no chunks included.
  abbrev pub counted : List (PolicyChunk V) → List PolicyDoc → List (PolicyDoc × ℕ)
  counted chunks [] = []
  counted chunks (d ∷ ds) = (d, length (chunks_of d.doc_id chunks)) ∷ counted chunks ds

  unfoldable pub list_policy_docs : Tables V → List (PolicyDoc × ℕ)
  list_policy_docs t = sort_by newest_first (counted t.chunks t.docs)
