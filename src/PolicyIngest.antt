-- ===== src/PolicyIngest.antt =====
-- narration-enrichment/src/narration_enrichment/policy_ingest.py: chunk, embed each chunk, replace
-- the document in one commit. `sha256` is the hex digest of hashlib; `embed` is the caller's
-- `embed_fn`, a call of the embedding provider for the chunk of an index.
pub mod Atomic
pub mod Idempotent
mod Examples
use gen_ai_backend.Prelude.{
  ℕ, String, str_eq, Bool, true, false, Option, none, some, List, [], ◌∷◌, length, if◌then◌else◌,
}
use gen_ai_backend.Prelude.Int.{ℤ}
use gen_ai_backend.Prelude.Text.{Text, is_empty, strip}
use gen_ai_backend.Errors.{Raised, plain, Attempt, returned, raised, value_error, integrity_error}
use gen_ai_backend.Chunker.{Chunk, Chunks, chunks, invalid, chunk}
use gen_ai_backend.PolicyStore.{
  PolicyDoc, Tables, get_policy_doc, chunks_of, upsert_policy_doc_with_chunks,
}

pub record IngestResult : Type 0 where
  pub doc_id : String
  pub chunks_ingested : ℕ
  pub unchanged : Bool
  pub checksum : String

-- The arguments of one call.
pub record Request : Type 0 where
  pub doc_id : String
  pub title : String
  pub content : Text
  pub source_uri : Option String
  pub chunk_size : ℤ
  pub overlap : ℤ

module _ {V : Type 0} where
  abbrev pub put_row : ℕ × Text × V → Attempt (List (ℕ × Text × V)) → Attempt (List (ℕ × Text × V))
  put_row row (returned rows) = returned (row ∷ rows)
  put_row row (raised e) = raised e

  abbrev pub embed_chunk :
      Chunk → Attempt V → Attempt (List (ℕ × Text × V)) → Attempt (List (ℕ × Text × V))
  embed_chunk c (returned v) rest = put_row (c.index, c.content, v) rest
  embed_chunk c (raised e) rest = raised e

  -- The embedding loop: the first failure aborts it.
  unfoldable pub embed_all : (ℕ → Text → Attempt V) → List Chunk → Attempt (List (ℕ × Text × V))
  embed_all embed [] = returned []
  embed_all embed (c ∷ cs) = embed_chunk c (embed c.index c.content) (embed_all embed cs)

-- The no-op fast path.
abbrev pub is_unchanged : String → Option PolicyDoc → Bool
is_unchanged checksum none = false
is_unchanged checksum (some d) = str_eq d.checksum checksum

module _ {V : Type 0} (sha256 : Text → String) where
  abbrev pub finish_ingest :
      Request → ℕ → Tables V → Option (Tables V) → Tables V × Attempt IngestResult
  finish_ingest r n t none = (t, raised (plain integrity_error))
  finish_ingest r n t (some t') = (
    t',
    returned (record {
      doc_id = r.doc_id;
      chunks_ingested = n;
      unchanged = false;
      checksum = sha256 r.content;
    }),
  )

  abbrev pub store_rows :
      ℕ → Request → Tables V → Attempt (List (ℕ × Text × V)) → Tables V × Attempt IngestResult
  store_rows now r t (raised e) = (t, raised e)
  store_rows now r t (returned rows) =
      finish_ingest r (length rows) t
        (upsert_policy_doc_with_chunks now r.doc_id r.title (sha256 r.content) r.source_uri rows t)

  -- From the chunker's answer on; a chunker error or no chunk is a ValueError.
  abbrev pub ingest_chunks :
      ℕ → (ℕ → Text → Attempt V) → Request → Tables V → Chunks → Tables V × Attempt IngestResult
  ingest_chunks now embed r t (invalid e) = (t, raised (plain value_error))
  ingest_chunks now embed r t (chunks []) = (t, raised (plain value_error))
  ingest_chunks now embed r t (chunks (c ∷ cs)) = store_rows now r t (embed_all embed (c ∷ cs))

  unfoldable pub ingest :
      ℕ → (ℕ → Text → Attempt V) → Request → Tables V → Tables V × Attempt IngestResult
  ingest now embed r t =
      if is_empty (strip r.content)
      then (t, raised (plain value_error))
      else if is_unchanged (sha256 r.content) (get_policy_doc r.doc_id t)
      then (
        t,
        returned (record {
          doc_id = r.doc_id;
          chunks_ingested = length (chunks_of r.doc_id t.chunks);
          unchanged = true;
          checksum = sha256 r.content;
        }),
      )
      else ingest_chunks now embed r t (chunk r.content r.chunk_size r.overlap)
