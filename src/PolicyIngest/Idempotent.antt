-- ===== src/PolicyIngest/Idempotent.antt =====
-- A first ingest of a document and a second one of the same bytes.
use gen_ai_backend.Prelude.{
  ℕ, suc, ◌<◌, ◌-◌, String, str_eq, eq_iff, ◌≡◌, refl, sym, ap, ◌∙◌, ◌≢◌, true, false, some, List,
  [], ◌∷◌, length, arith,
}
use gen_ai_backend.Prelude.Int.{pos}
use gen_ai_backend.Prelude.Text.{Text, is_empty, strip}
use gen_ai_backend.Errors.{Attempt, returned}
use gen_ai_backend.Chunker.{Chunk, chunks, chunk}
use gen_ai_backend.Chunker.Cover.{chunk-Covering, reassemble, AtOffsets}
use gen_ai_backend.PolicyStore.{PolicyDoc, Tables, get_policy_doc, chunks_of}
use gen_ai_backend.PolicyStore.Upsert.{HasNoOrphans, IsReplaced, upsert_replaces}
use gen_ai_backend.PolicyStore.Rows.{new_chunks}
use gen_ai_backend.PolicyIngest.{IngestResult, Request, ingest_chunks, is_unchanged, ingest}
use gen_ai_backend.PolicyIngest.Atomic.{Answers, Embedded, embed_all_total, Embedded-Numbered}

-- The row that an ingest leaves.
abbrev doc_row : String → ℕ → Request → PolicyDoc
doc_row checksum now r = record {
  doc_id = r.doc_id;
  title = r.title;
  source_uri = r.source_uri;
  checksum = checksum;
  ingested_at = now;
}

-- What an ingest that stored the document did to the tables, with the chunks of the text as rows.
pub record Stored (V : Type 0) (checksum : String) (now : ℕ) (embed : ℕ → Text → Attempt V)
    (r : Request) (size overlap : ℕ) (t : Tables V) (result : Tables V × Attempt IngestResult)
    : Type 0 where
  pub parts : List Chunk
  pub rows : List (ℕ × Text × V)
  pub chunked : chunk r.content (pos size) (pos overlap) ≡ chunks parts
  pub some_part : parts ≢ []
  pub embedded : Embedded embed parts rows
  pub replaced : IsReplaced V now (doc_row checksum now r) rows t result.0
  pub reported :
      result.1
      ≡ returned (record {
        doc_id = r.doc_id;
        chunks_ingested = length rows;
        unchanged = false;
        checksum = checksum;
      })

length-new_chunks :
    {V : Type 0} (now next : ℕ) (k : String) (rows : List (ℕ × Text × V))
    → length (new_chunks now next k rows) ≡ length rows
length-new_chunks now next k [] = refl
length-new_chunks now next k (row ∷ rows) = ap suc (length-new_chunks now (suc next) k rows)

module _ {V : Type 0} (sha256 : Text → String) (now : ℕ) (embed : ℕ → Text → Attempt V)
    (answers : Answers embed) (r : Request) (size overlap : ℕ) (t : Tables V)
    (clean : HasNoOrphans r.doc_id t) where
  chunks-Stored :
      (parts : List Chunk)
      → chunk r.content (pos size) (pos overlap) ≡ chunks parts
      → AtOffsets (strip r.content) size (size - overlap) 0 parts
      → parts ≢ []
      → Stored V
          (sha256 r.content)
          now
          embed
          r
          size
          overlap
          t
          (ingest_chunks sha256 now embed r t (chunks parts))
  chunks-Stored [] c a ne = absurd (ne refl)
  chunks-Stored (p ∷ ps) c a ne =
      let (rows, made, em) = embed_all_total embed answers (p ∷ ps) in
      let (t', committed, replaced) =
        upsert_replaces now r.doc_id r.title (sha256 r.content) r.source_uri rows t
          (Embedded-Numbered embed (strip r.content) size (size - overlap) 0 (p ∷ ps) rows a em)
          clean in
      rw (made, committed)
        (record {
          parts = p ∷ ps;
          rows = rows;
          chunked = c;
          some_part = ne;
          embedded = em;
          replaced = replaced;
          reported = refl;
        })

-- With a provider that answers, no orphaned chunks under its id, and content that is not blank and not what the
-- document already holds, an ingest replaces the document: its rows are the chunks of the text in
-- order with their vectors, at least one, and every other document keeps its row and its chunks.
pub ingest_stores :
    {V : Type 0} (sha256 : Text → String) (now : ℕ) (embed : ℕ → Text → Attempt V) (r : Request)
    (size overlap : ℕ) (t : Tables V)
    → Answers embed
    → HasNoOrphans r.doc_id t
    → overlap < size
    → r.chunk_size ≡ pos size
    → r.overlap ≡ pos overlap
    → is_empty (strip r.content) ≡ false
    → is_unchanged (sha256 r.content) (get_policy_doc r.doc_id t) ≡ false
    → Stored V (sha256 r.content) now embed r size overlap t (ingest sha256 now embed r t)
unfolding ingest
ingest_stores sha256 now embed r size overlap t answers clean l hs ho full fresh =
    let c = chunk-Covering r.content size overlap l in
    let some_part : c.parts ≢ [] = λ e.
      let blank : true ≡ false = ap is_empty (sym (ap (reassemble overlap) e) ∙ c.whole) ∙ full in
      cc in
    let chunked : chunk r.content r.chunk_size r.overlap ≡ chunks c.parts =
      cc (c.returned, hs, ho) in
    rw (full, fresh, chunked)
      (chunks-Stored sha256 now embed answers r size overlap t clean c.parts c.returned c.offsets
        some_part)

-- What an ingest that stored the document left is what a later ingest of the same bytes finds.
same_digest_unchanged :
    {V : Type 0} (sha256 : Text → String) (now later : ℕ) (embed embed' : ℕ → Text → Attempt V)
    (r r' : Request) (size overlap : ℕ) (t : Tables V) (result : Tables V × Attempt IngestResult)
    → Stored V (sha256 r.content) now embed r size overlap t result
    → r'.doc_id ≡ r.doc_id
    → r'.content ≡ r.content
    → is_empty (strip r.content) ≡ false
    → (n : ℕ) × (result.1
        ≡ returned (record {
          doc_id = r.doc_id;
          chunks_ingested = n;
          unchanged = false;
          checksum = sha256 r.content;
        }))
      × (ingest sha256 later embed' r' result.0 ≡ (
        result.0,
        returned (record {
          doc_id = r.doc_id;
          chunks_ingested = n;
          unchanged = true;
          checksum = sha256 r.content;
        }),
      ))
unfolding ingest
same_digest_unchanged sha256 now later embed embed' r r' size overlap t result s same_id same full =
    let id = r.doc_id in
    let found : get_policy_doc id result.0 ≡ some (doc_row (sha256 r.content) now r) =
      ground (arith, s.replaced.docs_after id, eq_iff id id) in
    let held : chunks_of id result.0.chunks ≡ new_chunks now t.next_id id s.rows =
      ground (arith, s.replaced.chunks_after id, eq_iff id id) in
    let checksum = sha256 r.content in
    let hit : str_eq checksum checksum ≡ true = (eq_iff checksum checksum).1 refl in
    (
      length s.rows,
      s.reported,
      rw (same, same_id, full, found, hit, held, length-new_chunks now t.next_id id s.rows),
    )

-- With a provider that answers, an overlap below the chunk size, no orphaned chunks under the
-- document's id, and content that is not blank and not what the document already holds, a first
-- ingest stores the document; then an ingest of the same bytes under the same id, with any provider
-- at any time, answers unchanged with the same number of chunks and leaves the tables as the first
-- one left them.
pub second_ingest_unchanged :
    {V : Type 0} (sha256 : Text → String) (now later : ℕ) (embed embed' : ℕ → Text → Attempt V)
    (r r' : Request) (size overlap : ℕ) (t : Tables V)
    → Answers embed
    → HasNoOrphans r.doc_id t
    → overlap < size
    → r.chunk_size ≡ pos size
    → r.overlap ≡ pos overlap
    → is_empty (strip r.content) ≡ false
    → is_unchanged (sha256 r.content) (get_policy_doc r.doc_id t) ≡ false
    → r'.doc_id ≡ r.doc_id
    → r'.content ≡ r.content
    → let first = ingest sha256 now embed r t in
      (n : ℕ) × (first.1
        ≡ returned (record {
          doc_id = r.doc_id;
          chunks_ingested = n;
          unchanged = false;
          checksum = sha256 r.content;
        }))
      × (ingest sha256 later embed' r' first.0 ≡ (
        first.0,
        returned (record {
          doc_id = r.doc_id;
          chunks_ingested = n;
          unchanged = true;
          checksum = sha256 r.content;
        }),
      ))
second_ingest_unchanged sha256 now later embed embed' r r' size overlap t answers clean l hs ho full
      fresh same_id same =
    same_digest_unchanged sha256 now later embed embed' r r' size overlap t
      (ingest sha256 now embed r t)
      (ingest_stores sha256 now embed r size overlap t answers clean l hs ho full fresh) same_id
      same full
