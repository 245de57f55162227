-- ===== src/PolicyStore/Rows.antt =====
-- What the writes of the policy tables do to the rows of a document.
use gen_ai_backend.Prelude.{
  ℕ, suc, ◌+◌, ◌<◌, String, str_eq, eq_iff, ◌≡◌, refl, true, false, Bool-cases, inl, inr, Option,
  none, some, List, [], ◌∷◌, ◌++◌, length, arith, if◌then◌else◌,
}
use mathlib.Core.List.{append-nil, append_assoc}
use native.Mathlib.Nat.{add-zero, add-suc, suc-add}
use gen_ai_backend.Prelude.Text.{Text}
use gen_ai_backend.PolicyStore.{
  PolicyDoc, PolicyChunk, find_doc, replace_doc, chunks_of, without_chunks, key_taken, new_chunk,
  insert_chunks,
}

abbrev renewed : PolicyDoc → Option PolicyDoc → Option PolicyDoc
renewed doc none = none
renewed doc (some _) = some doc

pub find_doc-replace_doc :
    (doc : PolicyDoc) (j : String) (ds : List PolicyDoc)
    → find_doc j (replace_doc doc ds)
      ≡ (if str_eq doc.doc_id j then renewed doc (find_doc j ds) else find_doc j ds)
find_doc-replace_doc doc j [] = ground arith
find_doc-replace_doc doc j (d ∷ ds) = ground (
  arith,
  find_doc-replace_doc doc j ds,
  eq_iff d.doc_id doc.doc_id,
  eq_iff d.doc_id j,
  eq_iff doc.doc_id j,
)

pub find_doc-snoc :
    (doc : PolicyDoc) (j : String) (ds : List PolicyDoc)
    → find_doc doc.doc_id ds ≡ none
    → find_doc j (ds ++ doc ∷ []) ≡ (if str_eq doc.doc_id j then some doc else find_doc j ds)
find_doc-snoc doc j [] h = refl
find_doc-snoc doc j (d ∷ ds) h = ground (
  arith,
  find_doc-snoc doc j ds,
  eq_iff d.doc_id doc.doc_id,
  eq_iff d.doc_id j,
  eq_iff doc.doc_id j,
)

module _ {V : Type 0} where
  pub chunks_of-append :
      (k : String) (xs ys : List (PolicyChunk V))
      → chunks_of k (xs ++ ys) ≡ chunks_of k xs ++ chunks_of k ys
  chunks_of-append k [] ys = refl
  chunks_of-append k (x ∷ xs) ys = ground (arith, chunks_of-append k xs ys)

  pub chunks_of-without_chunks :
      (k j : String) (cs : List (PolicyChunk V))
      → chunks_of j (without_chunks k cs) ≡ (if str_eq k j then [] else chunks_of j cs)
  chunks_of-without_chunks k j [] = ground arith
  chunks_of-without_chunks k j (c ∷ cs) =
      ground
        (arith, chunks_of-without_chunks k j cs, eq_iff c.doc_id k, eq_iff c.doc_id j, eq_iff k j)

  -- Every chunk of the document has an index below `k`, so that `k` is free.
  abbrev pub Below : String → ℕ → List (PolicyChunk V) → Type 0
  Below doc_id k [] = Unit
  Below doc_id k (c ∷ cs) = (str_eq c.doc_id doc_id ≡ true → c.chunk_index < k) × Below doc_id k cs

  pub key_free :
      (doc_id : String) (k : ℕ) (cs : List (PolicyChunk V))
      → Below doc_id k cs
      → key_taken doc_id k cs ≡ false
  key_free doc_id k [] h = refl
  key_free doc_id k (c ∷ cs) h = ground (arith, key_free doc_id k cs h.1, h.0)

  Below-snoc :
      (doc_id : String) (k : ℕ) (cs : List (PolicyChunk V)) (c : PolicyChunk V)
      → Below doc_id k cs
      → c.chunk_index ≡ k
      → Below doc_id (suc k) (cs ++ c ∷ [])
  Below-snoc doc_id k [] c h e = (λ _. omega arith, tt)
  Below-snoc doc_id k (x ∷ cs) c h e = (λ m. omega (arith, h.0 m), Below-snoc doc_id k cs c h.1 e)

  pub Below-none :
      (doc_id : String) (cs : List (PolicyChunk V)) → chunks_of doc_id cs ≡ [] → Below doc_id 0 cs
  Below-none doc_id [] h = tt
  Below-none doc_id (c ∷ cs) h = elim (Bool-cases (str_eq c.doc_id doc_id)) [
    | inl e ↦ absurd (ground arith)
    | inr e ↦ (λ m. cc, Below-none doc_id cs (rw e at h))
  ]

  -- The rows are numbered from `k` on.
  abbrev pub Numbered : ℕ → List (ℕ × Text × V) → Type 0
  Numbered k [] = Unit
  Numbered k (row ∷ rows) = (row.0 ≡ k) × Numbered (suc k) rows

  -- The chunk rows that the INSERTs of `rows` write.
  abbrev pub new_chunks : ℕ → ℕ → String → List (ℕ × Text × V) → List (PolicyChunk V)
  new_chunks now next doc_id [] = []
  new_chunks now next doc_id (row ∷ rows) =
      new_chunk now next doc_id row ∷ new_chunks now (suc next) doc_id rows

  pub insert_chunks_lem :
      (now k next : ℕ) (doc_id : String) (rows : List (ℕ × Text × V)) (cs : List (PolicyChunk V))
      → Numbered k rows
      → Below doc_id k cs
      → insert_chunks now doc_id rows cs next
        ≡ some (cs ++ new_chunks now next doc_id rows, next + length rows)
  unfolding insert_chunks
  insert_chunks_lem now k next doc_id [] cs n b = rw (append-nil, add-zero)
  insert_chunks_lem now k next doc_id (row ∷ rows) cs n b =
      let c = new_chunk now next doc_id row in
      let free : key_taken doc_id row.0 cs ≡ false = rw n.0 (key_free doc_id k cs b) in
      let later =
        insert_chunks_lem now (suc k) (suc next) doc_id rows (cs ++ c ∷ []) n.1
          (Below-snoc doc_id k cs c b n.0) in
      rw (free, later)
        (cc (
          append_assoc cs (c ∷ []) (new_chunks now (suc next) doc_id rows),
          suc-add next (length rows),
          add-suc next (length rows),
        ))

  pub chunks_of-new_chunks :
      (now next : ℕ) (k j : String) (rows : List (ℕ × Text × V))
      → chunks_of j (new_chunks now next k rows)
        ≡ (if str_eq k j then new_chunks now next k rows else [])
  chunks_of-new_chunks now next k j [] = ground arith
  chunks_of-new_chunks now next k j (row ∷ rows) =
      ground (arith, chunks_of-new_chunks now (suc next) k j rows)

-- What the tables hold after a document was written: the document and exactly the new chunks under
-- its id, in order, and under every other id what was there.
