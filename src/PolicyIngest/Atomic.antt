-- ===== src/PolicyIngest/Atomic.antt =====
-- An ingest either replaces the document whole or writes nothing.
use gen_ai_backend.Prelude.{ℕ, suc, String, ◌≡◌, refl, ◌∙◌, List, [], ◌∷◌, arith}
use native.Mathlib.Numerals.{add-one}
use gen_ai_backend.Prelude.Text.{Text}
use gen_ai_backend.Errors.{Raised, Attempt, returned, raised}
use gen_ai_backend.Chunker.{Chunk, Chunks, chunks, invalid, chunk}
use gen_ai_backend.Chunker.Cover.{AtOffsets}
use gen_ai_backend.PolicyStore.{Tables}
use gen_ai_backend.PolicyStore.Rows.{Numbered}
use gen_ai_backend.PolicyIngest.{Request, embed_all, store_rows, ingest_chunks, ingest}

module _ {V : Type 0} (sha256 : Text → String) where
  stored_or_same :
      (now : ℕ) (r : Request) (t : Tables V) (rows : Attempt (List (ℕ × Text × V))) (e : Raised)
      → (store_rows sha256 now r t rows).1 ≡ raised e
      → (store_rows sha256 now r t rows).0 ≡ t
  stored_or_same now r t (raised x) e h = refl
  stored_or_same now r t (returned rows) e h = ground arith

  chunks_or_same :
      (now : ℕ) (embed : ℕ → Text → Attempt V) (r : Request) (t : Tables V) (c : Chunks)
      (e : Raised)
      → (ingest_chunks sha256 now embed r t c).1 ≡ raised e
      → (ingest_chunks sha256 now embed r t c).0 ≡ t
  chunks_or_same now embed r t (invalid x) e h = refl
  chunks_or_same now embed r t (chunks []) e h = refl
  chunks_or_same now embed r t (chunks (c ∷ cs)) e h =
      stored_or_same now r t (embed_all embed (c ∷ cs)) e h

  -- An ingest that raises, on whichever branch, leaves both tables as they were.
  pub raised_ingest_writes_nothing :
      (now : ℕ) (embed : ℕ → Text → Attempt V) (r : Request) (t : Tables V) (e : Raised)
      → (ingest sha256 now embed r t).1 ≡ raised e
      → (ingest sha256 now embed r t).0 ≡ t
  unfolding ingest
  raised_ingest_writes_nothing now embed r t e h =
      ground (arith, chunks_or_same now embed r t (chunk r.content r.chunk_size r.overlap) e)

-- The rows are the chunks in order, each with a vector that the provider returned for it.
abbrev pub Embedded :
    {V : Type 0} → (ℕ → Text → Attempt V) → List Chunk → List (ℕ × Text × V) → Type 0
Embedded embed [] [] = Unit
Embedded embed (c ∷ cs) (row ∷ rows) =
    (row.0 ≡ c.index)
    × (row.1 ≡ c.content)
    × (embed row.0 row.1 ≡ returned row.2)
    × Embedded embed cs rows
Embedded embed _ _ = ⊥

-- A provider that answers every call.
abbrev pub Answers : {V : Type 0} → (ℕ → Text → Attempt V) → Type 0
Answers {V} embed = (i : ℕ) (text : Text) → (v : V) × (embed i text ≡ returned v)

module _ {V : Type 0} (embed : ℕ → Text → Attempt V) (answers : Answers embed) where
  pub embed_all_total :
      (cs : List Chunk)
      → (rows : List (ℕ × Text × V)) × (embed_all embed cs ≡ returned rows) × Embedded embed cs rows
  unfolding embed_all
  embed_all_total [] = ([], refl, tt)
  embed_all_total (c ∷ cs) =
      let (v, e) = answers c.index c.content in
      let (rows, es, em) = embed_all_total cs in
      ((c.index, c.content, v) ∷ rows, rw (e, es), (refl, refl, e, em))

pub Embedded-Numbered :
    {V : Type 0} (embed : ℕ → Text → Attempt V) (text : Text) (size step k : ℕ) (cs : List Chunk)
    (rows : List (ℕ × Text × V))
    → AtOffsets text size step k cs
    → Embedded embed cs rows
    → Numbered k rows
Embedded-Numbered embed text size step k [] [] a e = tt
Embedded-Numbered embed text size step k (c ∷ cs) (row ∷ rows) a e =
    (e.0 ∙ a.0, Embedded-Numbered embed text size step (suc k) cs rows (rw add-one at (a.4)) e.3)
Embedded-Numbered embed text size step k [] (row ∷ rows) a e = elim e [ ]
Embedded-Numbered embed text size step k (c ∷ cs) [] a e = elim e [ ]
