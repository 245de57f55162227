-- ===== src/Rag/Retrieval.antt =====
-- The two retrievals over their tables.
use gen_ai_backend.Prelude.{
  ℕ, ◌≡◌, refl, Bool, true, false, if◌then◌else◌, Option, some, List, [], ◌∷◌, All,
}
use gen_ai_backend.Prelude.Text.{Text}
use gen_ai_backend.Floats.{Floats}
use gen_ai_backend.Enrichments.{EnrichmentRecord, has_embedding, list_records_with_embeddings}
use gen_ai_backend.PolicyStore.{PolicyChunk, list_policy_chunks_with_embeddings}
use gen_ai_backend.Rag.{
  keys, record_row, chunk_row, hybrid_find_similar_examples, hybrid_retrieve_policy_chunks,
}
use gen_ai_backend.Rag.Sound.{HasRow, all_rows, IsSound, hybrid-IsSound}

All-kept {ℓ κ} :
    {A : Type ℓ} (P : A → Type κ) (keep : Bool) (a : A) (rest : List A)
    → P a
    → All P rest
    → All P (if keep then a ∷ rest else rest)
All-kept P true a rest h hs = (h, hs)
All-kept P false a rest h hs = hs

All-with_embeddings {κ} :
    {V : Type 0} (P : EnrichmentRecord V → Type κ) (records : List (EnrichmentRecord V))
    → All P records
    → All P (list_records_with_embeddings records)
All-with_embeddings P [] h = tt
All-with_embeddings P (r ∷ rs) h =
    All-kept P (has_embedding r.embedding) r (list_records_with_embeddings rs) h.0
      (All-with_embeddings P rs h.1)

module _ (fl : Floats) where
  open fl use {F}

  -- Retrieving past enrichments never fails on a ranked id: whatever the query, its embedding (or the
  -- lack of one) and the floats are, it comes to at most `k` records of the table, none twice.
  pub examples_are_sound :
      (lower : Text → Text) (query_text : Text) (query : Option (List F)) (k : ℕ) (floor : F)
      (records : List (EnrichmentRecord (List F)))
      → (found : List (F × EnrichmentRecord (List F))) × (hybrid_find_similar_examples fl lower
            query_text query k floor records
          ≡ some (keys found))
        × IsSound fl record_row k records found
  unfolding hybrid_find_similar_examples
  examples_are_sound lower query_text query k floor records =
      let (found, eq, sound) =
        hybrid-IsSound fl record_row lower query_text query k floor
          (list_records_with_embeddings records) records
          (All-with_embeddings (HasRow fl record_row records) records
            (all_rows fl record_row records)) in
      (found, rw eq refl, sound)

  -- The same of the policy chunks, of those that have an embedding, each with its fused score.
  pub policies_are_sound :
      (lower : Text → Text) (query_text : Text) (query : Option (List F)) (k : ℕ) (floor : F)
      (chunks : List (PolicyChunk (List F)))
      → (found : List (F × PolicyChunk (List F))) × (hybrid_retrieve_policy_chunks fl lower
            query_text query k floor chunks
          ≡ some found)
        × IsSound fl chunk_row k (list_policy_chunks_with_embeddings chunks) found
  unfolding hybrid_retrieve_policy_chunks
  policies_are_sound lower query_text query k floor chunks =
      let candidates = list_policy_chunks_with_embeddings chunks in
      hybrid-IsSound fl chunk_row lower query_text query k floor candidates candidates
        (all_rows fl chunk_row candidates)
