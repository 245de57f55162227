-- ===== src/PolicyRoutes/Settled.antt =====
-- narration-enrichment/src/narration_enrichment/main.py: what `policies_ingest` leaves, by its reply.
use gen_ai_backend.Prelude.{
  ℕ, String, eq_iff, ◌≡◌, refl, sym, Bool-cases, inl, inr, Bool, true, false, Option, none, some,
  List, [], ◌∷◌, ◌++◌, length, arith, if◌then◌else◌,
}
use gen_ai_backend.Prelude.Text.{Text, is_empty, strip}
use gen_ai_backend.Errors.{Attempt, returned, raised}
use gen_ai_backend.Chunker.{Chunks, chunks, invalid, chunk}
use gen_ai_backend.PolicyStore.{
  PolicyDoc, PolicyChunk, Tables, find_doc, replace_doc, insert_chunks, without_chunks,
  commit_chunks, upsert_in, get_policy_doc, upsert_policy_doc_with_chunks,
}
use gen_ai_backend.PolicyStore.Rows.{find_doc-replace_doc, find_doc-snoc}
use gen_ai_backend.PolicyIngest.{
  IngestResult, Request, finish_ingest, store_rows, ingest_chunks, is_unchanged, embed_all, ingest,
}
use gen_ai_backend.PolicyRoutes.{
  Objects, World, Reply, ingested, http, Submission, find_text, put_text, reply_of, request_of,
  run_ingest, after_upload, policies_ingest,
}

-- The document has a row, and that row has the digest.
abbrev pub IsHeld : {V : Type 0} → String → String → Tables V → Type 0
IsHeld doc_id checksum t =
    (d : PolicyDoc) × (get_policy_doc doc_id t ≡ some d) × (d.checksum ≡ checksum)

module _ {V : Type 0} (doc : PolicyDoc) where
  abbrev IsCommitted : Option (Tables V) → Type 0
  IsCommitted none = Unit
  IsCommitted (some t) = get_policy_doc doc.doc_id t ≡ some doc

  commit-IsCommitted :
      (docs : List PolicyDoc) (rows : Option (List (PolicyChunk V) × ℕ))
      → find_doc doc.doc_id docs ≡ some doc
      → IsCommitted (commit_chunks docs rows)
  unfolding get_policy_doc
  commit-IsCommitted docs none h = tt
  commit-IsCommitted docs (some rows) h = h

  upsert-IsCommitted :
      (now : ℕ) (rows : List (ℕ × Text × V)) (t : Tables V) (existing : Option PolicyDoc)
      → get_policy_doc doc.doc_id t ≡ existing
      → IsCommitted (upsert_in now doc rows t existing)
  unfolding get_policy_doc
  upsert-IsCommitted now rows t none h =
      commit-IsCommitted (t.docs ++ doc ∷ []) (insert_chunks now doc.doc_id rows t.chunks t.next_id)
        (ground (arith, find_doc-snoc doc doc.doc_id t.docs h, eq_iff doc.doc_id doc.doc_id))
  upsert-IsCommitted now rows t (some d) h =
      commit-IsCommitted (replace_doc doc t.docs)
        (insert_chunks now doc.doc_id rows (without_chunks doc.doc_id t.chunks) t.next_id)
        (ground
          (arith, h, find_doc-replace_doc doc doc.doc_id t.docs, eq_iff doc.doc_id doc.doc_id))

module _ {V : Type 0} (sha256 : Text → String) (now : ℕ) (embed : ℕ → Text → Attempt V)
    (r : Request) (t : Tables V) where
  -- By the outcome of the ingest: the text is held, or nothing is written.
  abbrev Ends : Tables V × Attempt IngestResult → Type 0
  Ends (t', returned result) = IsHeld r.doc_id (sha256 r.content) t'
  Ends (t', raised e) = t' ≡ t

  finish-Ends :
      (n : ℕ) (doc : PolicyDoc) (t' : Option (Tables V))
      → doc.doc_id ≡ r.doc_id
      → doc.checksum ≡ sha256 r.content
      → IsCommitted doc t'
      → Ends (finish_ingest sha256 r n t t')
  finish-Ends n doc none i c h = refl
  finish-Ends n doc (some t') i c h = (doc, rw (sym i) h, c)

  rows-Ends : (rows : Attempt (List (ℕ × Text × V))) → Ends (store_rows sha256 now r t rows)
  unfolding upsert_policy_doc_with_chunks
  rows-Ends (raised e) = refl
  rows-Ends (returned rows) =
      let doc : PolicyDoc = record {
        doc_id = r.doc_id;
        title = r.title;
        source_uri = r.source_uri;
        checksum = sha256 r.content;
        ingested_at = now;
      } in
      finish-Ends (length rows) doc (upsert_in now doc rows t (get_policy_doc r.doc_id t)) refl refl
        (upsert-IsCommitted doc now rows t (get_policy_doc r.doc_id t) refl)

  chunks-Ends : (cs : Chunks) → Ends (ingest_chunks sha256 now embed r t cs)
  chunks-Ends (invalid e) = refl
  chunks-Ends (chunks []) = refl
  chunks-Ends (chunks (c ∷ cs)) = rows-Ends (embed_all embed (c ∷ cs))

  known-IsHeld :
      (d : Option PolicyDoc)
      → get_policy_doc r.doc_id t ≡ d
      → is_unchanged (sha256 r.content) d ≡ true
      → IsHeld r.doc_id (sha256 r.content) t
  known-IsHeld none h u = ground arith
  known-IsHeld (some d) h u = (d, h, (eq_iff d.checksum (sha256 r.content)).0 u)

  ingest-Ends : Ends (ingest sha256 now embed r t)
  unfolding ingest
  ingest-Ends = elim (Bool-cases (is_empty (strip r.content))) [
    | inl blank ↦ rw blank refl
    | inr full ↦ elim (Bool-cases (is_unchanged (sha256 r.content) (get_policy_doc r.doc_id t))) [
      | inl same ↦ rw (full, same) (known-IsHeld (get_policy_doc r.doc_id t) refl same)
      | inr fresh ↦ rw (full, fresh) (chunks-Ends (chunk r.content r.chunk_size r.overlap))
    ]
  ]

module _ {V : Type 0} (sha256 : Text → String) where
  -- What the reply says of the world `w'` after a submission `s` in the world `w`.
  abbrev pub IsSettled : Submission → World V → World V × Reply → Type 0
  IsSettled s w (w', ingested result) =
      IsHeld s.doc_id (sha256 s.content) w'.tables
      × (find_text s.doc_id w'.objects.texts ≡ (
          if w.objects.is_configured then some s.content else find_text s.doc_id w.objects.texts))
  IsSettled s w (w', http n) = w'.tables ≡ w.tables

  run-IsSettled :
      (now : ℕ) (embed : ℕ → Text → Attempt V) (s : Submission) (w : World V) (r : Request)
      (o : Objects)
      → r.doc_id ≡ s.doc_id
      → r.content ≡ s.content
      → find_text s.doc_id o.texts
        ≡ (if w.objects.is_configured then some s.content else find_text s.doc_id w.objects.texts)
      → (answer : Tables V × Attempt IngestResult) → Ends sha256 now embed r w.tables answer
      → IsSettled s w (record { tables = answer.0; objects = o }, reply_of answer.1)
  run-IsSettled now embed s w r o i c f (t, raised e) h = h
  run-IsSettled now embed s w r o i c f (t, returned result) h = (rw (sym i, sym c) h, f)

  module _ (now : ℕ) (embed : ℕ → Text → Attempt V) (s : Submission) (w : World V) where
    ran :
        (source_uri : Option String) (o : Objects)
        → find_text s.doc_id o.texts
          ≡ (if w.objects.is_configured then some s.content else find_text s.doc_id w.objects.texts)
        → IsSettled s w (run_ingest sha256 now embed (request_of s source_uri) o w.tables)
    ran source_uri o f =
        let r = request_of s source_uri in
        run-IsSettled now embed s w r o refl refl f (ingest sha256 now embed r w.tables)
          (ingest-Ends sha256 now embed r w.tables)

    uploaded :
        (upload : Attempt String)
        → w.objects.is_configured ≡ true
        → IsSettled s w (after_upload sha256 now embed s w upload)
    uploaded (raised e) on = refl
    uploaded (returned uri) on =
        ran (some uri) (put_text s.doc_id s.content w.objects)
          (rw on (ground (arith, eq_iff s.doc_id s.doc_id)))

    by_store :
        (upload : Attempt String) (on : Bool)
        → w.objects.is_configured ≡ on
        → IsSettled s w (
            if on
            then after_upload sha256 now embed s w upload
            else run_ingest sha256 now embed (request_of s none) w.objects w.tables)
    by_store upload true on = uploaded upload on
    by_store upload false off = ran none w.objects (rw off refl)

    -- Whatever the digest, the provider and the object store answer: if the synchronous ingest replies
    -- that the document is ingested, new or unchanged, then the document has a row with the digest of
    -- the submitted text, and the object store, where it is configured, holds that text; if it replies
    -- an error, both tables are as they were.
    pub policies_ingest_settles :
        (upload : Attempt String) → IsSettled s w (policies_ingest sha256 now embed upload s w)
    unfolding policies_ingest
    policies_ingest_settles upload = by_store upload w.objects.is_configured refl
