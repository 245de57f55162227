-- ===== src/EnrichWork.antt =====
-- narration-enrichment/src/narration_enrichment/main.py: `_enrich_and_persist`, the work of an enrichment
-- between the guards of the route. The embedding calls and the generative call are arguments, and so
-- are the readings of the clocks and the id of the new row.
pub mod Settled
mod Examples
use gen_ai_backend.Prelude.{ℕ, String, Option, none, some, List, [], ◌∷◌, take}
use gen_ai_backend.Prelude.Text.{Text}
use gen_ai_backend.Errors.{
  Raised, plain, rate_limited, index_error as raised_index_error, other, Attempt, returned, raised,
}
use gen_ai_backend.CircuitBreaker.{CircuitBreaker}
use gen_ai_backend.RateLimiter.{RateLimiter, Outcome, acquired, exceeded, index_error, acquire}
use gen_ai_backend.Enrichment.{Settings, Readings, enrich_narration}
use gen_ai_backend.Floats.{Floats, ratio}
use gen_ai_backend.Enrichments.{EnrichmentRecord, save_enrichment}
use gen_ai_backend.PolicyStore.{PolicyChunk}
use gen_ai_backend.Rag.{top_k, hybrid_find_similar_examples, hybrid_retrieve_policy_chunks}
use gen_ai_backend.RagPrompt.{build_context_block, build_policy_context_block}

-- models.py `Citation`
pub record Citation (F : Type 0) : Type 0 where
  pub doc_id : String
  pub chunk_index : ℕ
  pub snippet : Text
  pub similarity_score : F

-- models.py `TransactionEnrichment`, less its confidence.
pub record TransactionEnrichment (F : Type 0) : Type 0 where
  pub merchant : Text
  pub category : Text
  pub transaction_type : Text
  pub policy_citations : List (Citation F)

-- The two calls of `embed_text` on the raw client.
pub record Embedder (V : Type 0) : Type 0 where
  pub query : Text → Attempt V
  pub document : Text → Attempt V

pub record State (V : Type 0) : Type 0 where
  pub limiter : RateLimiter
  pub breaker : CircuitBreaker
  pub records : List (EnrichmentRecord V)

abbrev pub to_option {ℓ} : {A : Type ℓ} → Attempt A → Option A
to_option (returned a) = some a
to_option (raised e) = none

abbrev or_empty {ℓ} : {A : Type ℓ} → Option (List A) → List A
or_empty none = []
or_empty (some found) = found

abbrev pub citations : {F V : Type 0} → List (F × PolicyChunk V) → List (Citation F)
citations [] = []
citations ((score, c) ∷ rest) =
    record {
      doc_id = c.doc_id;
      chunk_index = c.chunk_index;
      snippet = take 280 c.content;
      similarity_score = score;
    }
    ∷ citations rest

module _ (fl : Floats) (lower : Text → Text) where
  open fl use {F}

  -- MIN_SIMILARITY and POLICY_MIN_SIMILARITY, 0.70 and 0.65. A retrieval that raises leaves no
  -- context.
  unfoldable pub context_for :
      Text → Option (List F) → List (EnrichmentRecord (List F)) → Option Text
  context_for narration query records = build_context_block (
      or_empty
        (hybrid_find_similar_examples fl lower narration query top_k (ratio fl 7 10) records))

  unfoldable pub policies_for :
      Text → Option (List F) → List (PolicyChunk (List F)) → List (F × PolicyChunk (List F))
  policies_for narration query chunks =
      or_empty
        (hybrid_retrieve_policy_chunks fl lower narration query top_k (ratio fl 13 20) chunks)

  module _ (settings : Settings)
      (call_llm : Option Text → Option Text → String → Attempt (TransactionEnrichment F))
      (clock : Readings) (now saved_at id : ℕ) (chunks : List (PolicyChunk (List F))) where
    -- The row that is saved and the result that is returned.
    abbrev pub cited :
        List (F × PolicyChunk (List F)) → TransactionEnrichment F → TransactionEnrichment F
    cited policies result = record result { policy_citations = citations policies }

    abbrev pub persist :
        Text
        → Embedder (List F)
        → List (F × PolicyChunk (List F))
        → State (List F)
        → CircuitBreaker × Attempt (TransactionEnrichment F)
        → State (List F) × Attempt (TransactionEnrichment F)
    persist narration embedder policies s (breaker, raised e) =
        (record s { breaker = breaker }, raised e)
    persist narration embedder policies s (breaker, returned result) = (
      record s {
        breaker = breaker;
        records =
            save_enrichment id saved_at narration
              (result.merchant, result.category, result.transaction_type)
              (to_option (embedder.document narration)) s.records;
      },
      returned (cited policies result),
    )

    abbrev pub after_acquire :
        Text
        → Embedder (List F)
        → State (List F)
        → RateLimiter × Outcome
        → State (List F) × Attempt (TransactionEnrichment F)
    after_acquire narration embedder s (limiter, exceeded scope ms) =
        (record s { limiter = limiter }, raised (plain (rate_limited ms)))
    after_acquire narration embedder s (limiter, index_error) =
        (record s { limiter = limiter }, raised (plain raised_index_error))
    after_acquire narration embedder s (limiter, acquired) =
        let query = to_option (embedder.query narration) in
        let policies = policies_for narration query chunks in
        persist narration embedder policies (record s { limiter = limiter })
          (enrich_narration
            (call_llm (context_for narration query s.records) (build_policy_context_block policies))
            clock settings s.breaker)

    -- `raw_client` raises if the client cannot be built.
    unfoldable pub enrich_and_persist :
        Text
        → Attempt (Embedder (List F))
        → State (List F)
        → State (List F) × Attempt (TransactionEnrichment F)
    enrich_and_persist narration (raised e) s = (s, raised e)
    enrich_and_persist narration (returned embedder) s =
        after_acquire narration embedder s (acquire now s.limiter)
