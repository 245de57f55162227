-- ===== src/PolicyStore/Delete.antt =====
-- Deleting a document: with foreign keys enforced, and without.
use gen_ai_backend.Prelude.{
  ℕ, String, str_eq, eq_iff, ◌≡◌, refl, ◌≢◌, true, false, Option, none, some, List, [], ◌∷◌, arith,
  if◌then◌else◌,
}
use gen_ai_backend.Prelude.Text.{Text}
use gen_ai_backend.PolicyStore.{
  PolicyDoc, PolicyChunk, Tables, find_doc, without_doc, chunks_of, key_taken, insert_chunks,
  upsert_policy_doc_with_chunks, delete_policy_doc, get_policy_doc,
}
use gen_ai_backend.PolicyStore.Rows.{chunks_of-without_chunks, Numbered}

find_doc-without_doc :
    (k j : String) (ds : List PolicyDoc)
    → find_doc j (without_doc k ds) ≡ (if str_eq k j then none else find_doc j ds)
find_doc-without_doc k j [] = ground arith
find_doc-without_doc k j (d ∷ ds) =
    ground (arith, find_doc-without_doc k j ds, eq_iff d.doc_id k, eq_iff d.doc_id j, eq_iff k j)

module _ {V : Type 0} where
  -- Where the database enforces foreign keys, deleting a document that is there removes it and its
  -- chunks, and leaves every other document and its chunks as they were.
  pub delete_cascades :
      (doc_id j : String) (t : Tables V) (d : PolicyDoc)
      → get_policy_doc doc_id t ≡ some d
      → let t' = (delete_policy_doc true doc_id t).0 in
        (get_policy_doc j t' ≡ (if str_eq doc_id j then none else get_policy_doc j t))
        × (chunks_of j t'.chunks ≡ (if str_eq doc_id j then [] else chunks_of j t.chunks))
  unfolding delete_policy_doc
  delete_cascades doc_id j t d h = rw h (
    unfold get_policy_doc in find_doc-without_doc doc_id j t.docs,
    chunks_of-without_chunks doc_id j t.chunks,
  )

  no_insert :
      (now next : ℕ) (doc_id : String) (rows : List (ℕ × Text × V)) (cs : List (PolicyChunk V))
      → Numbered 0 rows
      → rows ≢ []
      → key_taken doc_id 0 cs ≡ true
      → insert_chunks now doc_id rows cs next ≡ none
  unfolding insert_chunks
  no_insert now next doc_id [] cs n ne k = absurd (ne refl)
  no_insert now next doc_id (row ∷ rows) cs n ne k = rw (n.0, k)

  gone :
      (doc_id : String) (t : Tables V)
      → get_policy_doc doc_id (record t { docs = without_doc doc_id t.docs }) ≡ none
  unfolding get_policy_doc
  gone doc_id t = ground (arith, find_doc-without_doc doc_id doc_id t.docs, eq_iff doc_id doc_id)

  -- Where the database does not enforce foreign keys, deleting a document that has its chunk 0
  -- leaves all its chunks in the table, and an upsert of that document right after it, with any rows
  -- numbered from 0 and at least one of them, is an IntegrityError.
  pub unenforced_delete_blocks_upsert :
      (now : ℕ) (doc_id title checksum : String) (source_uri : Option String)
      (rows : List (ℕ × Text × V)) (t : Tables V) (d : PolicyDoc)
      → get_policy_doc doc_id t ≡ some d
      → key_taken doc_id 0 t.chunks ≡ true
      → Numbered 0 rows
      → rows ≢ []
      → let t' = (delete_policy_doc false doc_id t).0 in
        (t'.chunks ≡ t.chunks)
        × (upsert_policy_doc_with_chunks now doc_id title checksum source_uri rows t' ≡ none)
  unfolding delete_policy_doc upsert_policy_doc_with_chunks
  unenforced_delete_blocks_upsert now doc_id title checksum source_uri rows t d h k n ne =
      rw h (refl, rw (gone doc_id t, no_insert now t.next_id doc_id rows t.chunks n ne k))
