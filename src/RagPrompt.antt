-- ===== src/RagPrompt.antt =====
-- narration-enrichment/src/narration_enrichment/rag.py: the two blocks of the prompt of an enrichment.
use gen_ai_backend.Prelude.{Option, none, some, List, [], ◌∷◌, ◌++◌, map}
use gen_ai_backend.Prelude.Text.{Text, codes, decimal, join, newline}
use gen_ai_backend.Enrichments.{EnrichmentRecord}
use gen_ai_backend.PolicyStore.{PolicyChunk}
use gen_ai_backend.Rag.{keys}

module _ {V : Type 0} where
  abbrev example_line : EnrichmentRecord V → Text
  example_line r =
      codes "- \""
      ++ (r.narration
          ++ (codes "\" -> merchant=\""
              ++ (r.merchant
                  ++ (codes "\", category=\""
                      ++ (r.category
                          ++ (codes "\", transaction_type=\""
                              ++ (r.transaction_type ++ codes "\"")))))))

  pub build_context_block : List (EnrichmentRecord V) → Option Text
  build_context_block [] = none
  build_context_block (r ∷ rs) = some (
      join newline (
        codes "Here is how similar past narrations were classified:"
        ∷ (map example_line (r ∷ rs)
            ++ codes
                "Use these as guidance for consistency, but judge the new narration on its own merits."
              ∷ [])))

  abbrev excerpt_line : PolicyChunk V → Text
  excerpt_line c =
      codes "- [doc_id="
      ++ (codes c.doc_id
          ++ (codes ", chunk "
              ++ (decimal c.chunk_index ++ (codes "]: \"" ++ (c.content ++ codes "\"")))))

  abbrev policy_block_of : List (PolicyChunk V) → Option Text
  policy_block_of [] = none
  policy_block_of (c ∷ cs) = some (
      join newline (
        codes "Applicable policy excerpts from trusted policy docs:"
        ∷ (map excerpt_line (c ∷ cs)
            ++ codes
                "Treat these as rules, not just suggestions — if a policy applies, prefer it over your default classification."
              ∷ [])))

  pub build_policy_context_block : {F : Type 0} → List (F × PolicyChunk V) → Option Text
  build_policy_context_block scored_chunks = policy_block_of (keys scored_chunks)
