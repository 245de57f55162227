-- ===== src/PolicyStore/Examples.antt =====
-- The policy tables at concrete rows.
use gen_ai_backend.Prelude.{
  ℕ, ◌≡◌, ◌≢◌, ap, refl, Bool, true, false, none, some, List, [], ◌∷◌, arith,
}
use gen_ai_backend.Prelude.Text.{Text}
use gen_ai_backend.PolicyStore.{
  PolicyDoc, PolicyChunk, Tables, get_policy_doc, upsert_policy_doc_with_chunks, delete_policy_doc,
  list_policy_chunks_with_embeddings,
}
use gen_ai_backend.PolicyStore.Upsert.{IsReplaced, HasNoOrphans, upsert_replaces}
use gen_ai_backend.PolicyStore.Delete.{unenforced_delete_blocks_upsert}

abbrev doc_a : PolicyDoc
doc_a = record { doc_id = "a"; title = "A"; source_uri = none; checksum = "1"; ingested_at = 5 }

abbrev chunk_a : PolicyChunk ℕ
chunk_a = record {
  id = 1;
  doc_id = "a";
  chunk_index = 0;
  content = 65 ∷ [];
  embedding = some 3;
  embedded_at = 5;
}

abbrev tables : Tables ℕ
tables = record { docs = doc_a ∷ []; chunks = chunk_a ∷ []; next_id = 2 }

abbrev rows : List (ℕ × Text × ℕ)
rows = (0, 66 ∷ [], 4) ∷ (1, 67 ∷ [], 5) ∷ []

abbrev is_nil : List (ℕ × Text × ℕ) → Bool
is_nil [] = true
is_nil _ = false

readable :
    list_policy_chunks_with_embeddings (chunk_a ∷ record chunk_a { embedding = none } ∷ [])
    ≡ chunk_a ∷ []
unfolding list_policy_chunks_with_embeddings
readable = refl

some_row : rows ≢ []
some_row e = let wrong : false ≡ true = ap is_nil e in cc

clean : HasNoOrphans "a" tables
unfolding get_policy_doc
clean h = ground arith

upsert_replaces_example :
    (t' : Tables ℕ) × (upsert_policy_doc_with_chunks 9 "a" "B" "2" none rows tables ≡ some t')
    × IsReplaced ℕ 9
        (record { doc_id = "a"; title = "B"; source_uri = none; checksum = "2"; ingested_at = 9 })
        rows
        tables
        t'
upsert_replaces_example = upsert_replaces 9 "a" "B" "2" none rows tables (refl, (refl, tt)) clean

unenforced_delete_blocks_upsert_example :
    let t' = (delete_policy_doc false "a" tables).0 in
    (t'.chunks ≡ chunk_a ∷ []) × (upsert_policy_doc_with_chunks 9 "a" "B" "2" none rows t' ≡ none)
unfolding get_policy_doc
unenforced_delete_blocks_upsert_example =
    unenforced_delete_blocks_upsert 9 "a" "B" "2" none rows tables doc_a refl refl
      (refl, (refl, tt)) (λ e. some_row e)
