-- ===== src/PolicyStore/Upsert.antt =====
-- What an upsert leaves in the two tables.
use gen_ai_backend.Prelude.{
  ℕ, ◌+◌, String, str_eq, eq_iff, ◌≡◌, inl, inr, Option, none, some, List, [], ◌∷◌, ◌++◌, length,
  arith, if◌then◌else◌, Option-cases,
}
use mathlib.Core.List.{append-nil}
use gen_ai_backend.Prelude.Text.{Text}
use gen_ai_backend.PolicyStore.{
  PolicyDoc, Tables, replace_doc, chunks_of, without_chunks, upsert_in,
  upsert_policy_doc_with_chunks, get_policy_doc,
}
use gen_ai_backend.PolicyStore.Rows.{
  Below-none, Numbered, chunks_of-append, chunks_of-new_chunks, chunks_of-without_chunks,
  find_doc-replace_doc, find_doc-snoc, insert_chunks_lem, new_chunks,
}

pub record IsReplaced (V : Type 0) (now : ℕ) (doc : PolicyDoc) (rows : List (ℕ × Text × V))
    (t t' : Tables V) : Type 0 where
  pub docs_after :
      (j : String)
      → get_policy_doc j t' ≡ (if str_eq doc.doc_id j then some doc else get_policy_doc j t)
  pub chunks_after :
      (j : String)
      → chunks_of j t'.chunks ≡ (
          if str_eq doc.doc_id j
          then new_chunks now t.next_id doc.doc_id rows
          else chunks_of j t.chunks)

-- A document that is not in the table has no chunks.
abbrev pub HasNoOrphans : {V : Type 0} → String → Tables V → Type 0
HasNoOrphans j t = get_policy_doc j t ≡ none → chunks_of j t.chunks ≡ []

module _ {V : Type 0} (now : ℕ) (doc : PolicyDoc) (rows : List (ℕ × Text × V)) (t : Tables V)
    (n : Numbered 0 rows) where
  old-IsReplaced :
      (old : PolicyDoc)
      → get_policy_doc doc.doc_id t ≡ some old
      → (t' : Tables V) × (upsert_in now doc rows t (some old) ≡ some t')
        × IsReplaced V now doc rows t t'
  unfolding get_policy_doc
  old-IsReplaced old h =
      let kept = without_chunks doc.doc_id t.chunks in
      let cleared : chunks_of doc.doc_id kept ≡ [] = ground (
        arith,
        chunks_of-without_chunks doc.doc_id doc.doc_id t.chunks,
        eq_iff doc.doc_id doc.doc_id,
      ) in
      (
        record {
          docs = replace_doc doc t.docs;
          chunks = kept ++ new_chunks now t.next_id doc.doc_id rows;
          next_id = t.next_id + length rows;
        },
        rw (
            insert_chunks_lem now 0 t.next_id doc.doc_id rows kept n
              (Below-none doc.doc_id kept cleared)),
        record {
          docs_after =
              λ j. ground (arith, find_doc-replace_doc doc j t.docs, eq_iff doc.doc_id j, h);
          chunks_after = λ j. ground (
            arith,
            chunks_of-append j kept (new_chunks now t.next_id doc.doc_id rows),
            chunks_of-without_chunks doc.doc_id j t.chunks,
            chunks_of-new_chunks now t.next_id doc.doc_id j rows,
            append-nil (chunks_of j t.chunks),
          );
        },
      )

  new_added :
      get_policy_doc doc.doc_id t ≡ none
      → chunks_of doc.doc_id t.chunks ≡ []
      → (t' : Tables V) × (upsert_in now doc rows t none ≡ some t') × IsReplaced V now doc rows t t'
  unfolding get_policy_doc
  new_added h none_left = (
    record {
      docs = t.docs ++ doc ∷ [];
      chunks = t.chunks ++ new_chunks now t.next_id doc.doc_id rows;
      next_id = t.next_id + length rows;
    },
    rw (
        insert_chunks_lem now 0 t.next_id doc.doc_id rows t.chunks n
          (Below-none doc.doc_id t.chunks none_left)),
    record {
      docs_after = λ j. find_doc-snoc doc j t.docs h;
      chunks_after = λ j. ground (
        arith,
        chunks_of-append j t.chunks (new_chunks now t.next_id doc.doc_id rows),
        chunks_of-new_chunks now t.next_id doc.doc_id j rows,
        append-nil (chunks_of j t.chunks),
        eq_iff doc.doc_id j,
        none_left,
      );
    },
  )

-- With rows numbered from 0 and no orphaned chunks under the document's id, an upsert commits: it
-- leaves the document and exactly the new chunks under the id, in order, and all else as it was.
pub upsert_replaces :
    {V : Type 0} (now : ℕ) (doc_id title checksum : String) (source_uri : Option String)
    (rows : List (ℕ × Text × V)) (t : Tables V)
    → Numbered 0 rows
    → HasNoOrphans doc_id t
    → (t' : Tables V) × (upsert_policy_doc_with_chunks now doc_id title checksum source_uri rows t
        ≡ some t')
      × IsReplaced V now
          (record {
            doc_id = doc_id;
            title = title;
            source_uri = source_uri;
            checksum = checksum;
            ingested_at = now;
          })
          rows
          t
          t'
unfolding upsert_policy_doc_with_chunks
upsert_replaces now doc_id title checksum source_uri rows t n clean =
    elim (Option-cases (get_policy_doc doc_id t)) [
      | inl h ↦ rw h (new_added now doc rows t n h (clean h))
      | inr (old, h) ↦ rw h (old-IsReplaced now doc rows t n old h)
    ]
  where
    doc : PolicyDoc
    doc = record {
      doc_id = doc_id;
      title = title;
      source_uri = source_uri;
      checksum = checksum;
      ingested_at = now;
    }

IsReplaced-HasNoOrphans :
    {V : Type 0} (now : ℕ) (doc : PolicyDoc) (rows : List (ℕ × Text × V)) (t t' : Tables V)
    (j : String)
    → IsReplaced V now doc rows t t'
    → HasNoOrphans j t
    → HasNoOrphans j t'
IsReplaced-HasNoOrphans now doc rows t t' j r clean h =
    ground (arith, r.docs_after j, r.chunks_after j, clean)
