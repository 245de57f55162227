-- ===== src/PolicyStore.antt =====
-- narration-enrichment/src/narration_enrichment/db.py: the tables `policy_docs` and `policy_chunks`,
-- rows in the order of insertion. An embedding is a value of the embedding provider's, of a type `V`.
-- `foreign_keys` says whether the database enforces ON DELETE CASCADE; SQLite does so only on a
-- connection that has asked for it.
pub mod Rows
pub mod Upsert
pub mod Delete
mod Examples
use gen_ai_backend.Prelude.{
  ℕ, suc, String, str_eq, Bool, true, false, ◌&&◌, ◌||◌, ◌==◌, Option, none, some, List, [], ◌∷◌,
  ◌++◌, length, if◌then◌else◌,
}
use gen_ai_backend.Prelude.Text.{Text}

pub record PolicyDoc : Type 0 where
  pub doc_id : String
  pub title : String
  pub source_uri : Option String
  pub checksum : String
  pub ingested_at : ℕ

pub record PolicyChunk (V : Type 0) : Type 0 where
  pub id : ℕ
  pub doc_id : String
  pub chunk_index : ℕ
  pub content : Text
  pub embedding : Option V
  pub embedded_at : ℕ

pub record Tables (V : Type 0) : Type 0 where
  pub docs : List PolicyDoc
  pub chunks : List (PolicyChunk V)
  pub next_id : ℕ

abbrev pub find_doc : String → List PolicyDoc → Option PolicyDoc
find_doc doc_id [] = none
find_doc doc_id (d ∷ ds) = if str_eq d.doc_id doc_id then some d else find_doc doc_id ds

abbrev pub replace_doc : PolicyDoc → List PolicyDoc → List PolicyDoc
replace_doc new [] = []
replace_doc new (d ∷ ds) =
    let rest = replace_doc new ds in if str_eq d.doc_id new.doc_id then new ∷ rest else d ∷ rest

abbrev pub without_doc : String → List PolicyDoc → List PolicyDoc
without_doc doc_id [] = []
without_doc doc_id (d ∷ ds) =
    let rest = without_doc doc_id ds in if str_eq d.doc_id doc_id then rest else d ∷ rest

module _ {V : Type 0} where
  unfoldable pub get_policy_doc : String → Tables V → Option PolicyDoc
  get_policy_doc doc_id t = find_doc doc_id t.docs

  -- `PolicyDoc.chunks`
  abbrev pub chunks_of : String → List (PolicyChunk V) → List (PolicyChunk V)
  chunks_of doc_id [] = []
  chunks_of doc_id (c ∷ cs) =
      let rest = chunks_of doc_id cs in if str_eq c.doc_id doc_id then c ∷ rest else rest

  abbrev pub without_chunks : String → List (PolicyChunk V) → List (PolicyChunk V)
  without_chunks doc_id [] = []
  without_chunks doc_id (c ∷ cs) =
      let rest = without_chunks doc_id cs in if str_eq c.doc_id doc_id then rest else c ∷ rest

  -- The unique constraint `uq_policy_chunks_doc_index`.
  abbrev pub key_taken : String → ℕ → List (PolicyChunk V) → Bool
  key_taken doc_id i [] = false
  key_taken doc_id i (c ∷ cs) =
      (str_eq c.doc_id doc_id && c.chunk_index == i) || key_taken doc_id i cs

  abbrev pub new_chunk : ℕ → ℕ → String → ℕ × Text × V → PolicyChunk V
  new_chunk now id doc_id (i, content, v) = record {
    id = id;
    doc_id = doc_id;
    chunk_index = i;
    content = content;
    embedding = some v;
    embedded_at = now;
  }

  -- The INSERTs of one flush; `none` is the IntegrityError of a taken key.
  unfoldable pub insert_chunks :
      ℕ
      → String
      → List (ℕ × Text × V)
      → List (PolicyChunk V)
      → ℕ
      → Option (List (PolicyChunk V) × ℕ)
  insert_chunks now doc_id [] cs next = some (cs, next)
  insert_chunks now doc_id (row ∷ rows) cs next =
      let rest =
        insert_chunks now doc_id rows (cs ++ new_chunk now next doc_id row ∷ []) (suc next) in
      if key_taken doc_id row.0 cs then none else rest

  abbrev pub commit_chunks : List PolicyDoc → Option (List (PolicyChunk V) × ℕ) → Option (Tables V)
  commit_chunks docs none = none
  commit_chunks docs (some (cs, next)) = some (record { docs = docs; chunks = cs; next_id = next })

  -- The two branches on `existing`, up to the commit.
  abbrev pub upsert_in :
      ℕ → PolicyDoc → List (ℕ × Text × V) → Tables V → Option PolicyDoc → Option (Tables V)
  upsert_in now doc rows t (some existing) =
      commit_chunks (replace_doc doc t.docs)
        (insert_chunks now doc.doc_id rows (without_chunks doc.doc_id t.chunks) t.next_id)
  upsert_in now doc rows t none =
      commit_chunks (t.docs ++ doc ∷ []) (insert_chunks now doc.doc_id rows t.chunks t.next_id)

  -- `none`: the commit raised IntegrityError and nothing was written.
  unfoldable pub upsert_policy_doc_with_chunks :
      ℕ
      → String
      → String
      → String
      → Option String
      → List (ℕ × Text × V)
      → Tables V
      → Option (Tables V)
  upsert_policy_doc_with_chunks now doc_id title checksum source_uri rows t =
      let doc : PolicyDoc = record {
        doc_id = doc_id;
        title = title;
        source_uri = source_uri;
        checksum = checksum;
        ingested_at = now;
      } in
      upsert_in now doc rows t (get_policy_doc doc_id t)

  abbrev pub delete_in : Bool → String → Tables V → Option PolicyDoc → Tables V × Bool
  delete_in foreign_keys doc_id t none = (t, false)
  delete_in foreign_keys doc_id t (some doc) = (
    record t {
      docs = without_doc doc_id t.docs;
      chunks = if foreign_keys then without_chunks doc_id t.chunks else t.chunks;
    },
    true,
  )

  unfoldable pub delete_policy_doc : Bool → String → Tables V → Tables V × Bool
  delete_policy_doc foreign_keys doc_id t =
      delete_in foreign_keys doc_id t (get_policy_doc doc_id t)

  abbrev has_embedding : Option V → Bool
  has_embedding none = false
  has_embedding (some v) = true

  -- The read path of retrieval.
  unfoldable pub list_policy_chunks_with_embeddings : List (PolicyChunk V) → List (PolicyChunk V)
  list_policy_chunks_with_embeddings [] = []
  list_policy_chunks_with_embeddings (c ∷ cs) =
      let rest = list_policy_chunks_with_embeddings cs in
      if has_embedding c.embedding then c ∷ rest else rest
