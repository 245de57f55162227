-- ===== src/EnrichWork/Settled.antt =====
-- What an enrichment comes to: its citations, its row and what a refusal leaves alone.
use gen_ai_backend.Prelude.{ℕ, String, ◌≡◌, Option, some, List, [], ◌∷◌, take}
use gen_ai_backend.Prelude.Text.{Text}
use gen_ai_backend.Errors.{
  Raised, plain, rate_limited, index_error as raised_index_error, Attempt, returned, raised,
}
use gen_ai_backend.CircuitBreaker.{CircuitBreaker}
use gen_ai_backend.RateLimiter.{RateLimiter, Scope, acquired, exceeded, index_error, acquire}
use gen_ai_backend.Enrichment.{Settings, Readings, enrich_narration}
use gen_ai_backend.Floats.{Floats, ratio}
use gen_ai_backend.Enrichments.{save_enrichment}
use gen_ai_backend.PolicyStore.{PolicyChunk, list_policy_chunks_with_embeddings}
use gen_ai_backend.Rag.{chunk_row, hybrid_retrieve_policy_chunks}
use gen_ai_backend.Rag.Sound.{IsSound}
use gen_ai_backend.RagPrompt.{build_policy_context_block}
use gen_ai_backend.EnrichWork.{
  Citation, TransactionEnrichment, Embedder, State, to_option, context_for,
}

-- One citation for each chunk, in order: its document, its index, its first 280 characters, its score.
abbrev Cites : {F V : Type 0} → List (Citation F) → List (F × PolicyChunk V) → Type 0
Cites [] [] = Unit
Cites (c ∷ cs) ((score, k) ∷ ks) =
    (c.doc_id ≡ k.doc_id)
    × (c.chunk_index ≡ k.chunk_index)
    × (c.snippet ≡ take 280 k.content)
    × (c.similarity_score ≡ score)
    × Cites cs ks
Cites _ _ = ⊥

module _ (fl : Floats) (lower : Text → Text) (settings : Settings)
    (call_llm : Option Text → Option Text → String → Attempt (TransactionEnrichment (fl.F)))
    (clock : Readings) (now saved_at id : ℕ) (chunks : List (PolicyChunk (List (fl.F)))) where
  open fl use {F}

  -- An answer. The limiter let it through, and the provider was asked with the context of the two
  -- retrievals for the embedded narration. The answer is the reply with its citations replaced by the
  -- chunks that this retrieval found, rows of the table, at most three, none twice. One row is added,
  -- with what the reply says.
  pub record IsStored (narration : Text) (client : Attempt (Embedder (List F)))
      (s s' : State (List F)) (result : TransactionEnrichment F) : Type 0 where
    pub embedder : Embedder (List F)
    pub connected : client ≡ returned embedder
    pub let_through : (acquire now s.limiter).1 ≡ acquired
    pub policies : List (F × PolicyChunk (List F))
    pub retrieved :
        hybrid_retrieve_policy_chunks fl lower narration
          (to_option (embedder.query narration))
          3
          (ratio fl 13 20)
          chunks
        ≡ some policies
    pub rows : IsSound fl chunk_row 3 (list_policy_chunks_with_embeddings chunks) policies
    pub reply : TransactionEnrichment F
    pub asked :
        enrich_narration
          (call_llm
            (context_for fl lower narration (to_option (embedder.query narration)) s.records)
            (build_policy_context_block policies))
          clock
          settings
          s.breaker
        ≡ (s'.breaker, returned reply)
    pub cited : Cites result.policy_citations policies
    pub same : result ≡ record reply { policy_citations = result.policy_citations }
    pub stored :
        s'.records
        ≡ save_enrichment id saved_at narration
            (reply.merchant, reply.category, reply.transaction_type)
            (to_option (embedder.document narration))
            s.records

  -- What the provider comes to, asked with the context of the two retrievals for the embedded
  -- narration.
  abbrev reply_to :
      Text
      → Embedder (List F)
      → List (F × PolicyChunk (List F))
      → State (List F)
      → CircuitBreaker × Attempt (TransactionEnrichment F)
  reply_to narration embedder policies s =
      enrich_narration
        (call_llm (context_for fl lower narration (to_option (embedder.query narration)) s.records)
          (build_policy_context_block policies))
        clock settings s.breaker

  -- Why it raises: there is no client, the limiter refused, or the provider's chain raised when it
  -- was asked.
  pub data Cause (narration : Text) (client : Attempt (Embedder (List F))) (s s' : State (List F))
      (e : Raised) : Type 0 where
    unconnected : client ≡ raised e → s' ≡ s → Cause narration client s s' e
    limited :
        (scope : Scope) (ms : ℕ)
        → (acquire now s.limiter).1 ≡ exceeded scope ms
        → e ≡ plain (rate_limited ms)
        → s'.breaker ≡ s.breaker
        → Cause narration client s s' e
    failed_limiter :
        (acquire now s.limiter).1 ≡ index_error
        → e ≡ plain raised_index_error
        → s'.breaker ≡ s.breaker
        → Cause narration client s s' e
    asked_in_vain :
        (embedder : Embedder (List F)) (policies : List (F × PolicyChunk (List F)))
        → client ≡ returned embedder
        → (acquire now s.limiter).1 ≡ acquired
        → hybrid_retrieve_policy_chunks fl lower narration
            (to_option (embedder.query narration))
            3
            (ratio fl 13 20)
            chunks
          ≡ some policies
        → reply_to narration embedder policies s ≡ (s'.breaker, raised e)
        → Cause narration client s s' e

  -- An exception: no row is added.
  pub record IsRefused (narration : Text) (client : Attempt (Embedder (List F)))
      (s s' : State (List F)) (e : Raised) : Type 0 where
    pub records : s'.records ≡ s.records
    pub cause : Cause narration client s s' e

  abbrev pub Ending :
      Text
      → Attempt (Embedder (List F))
      → State (List F)
      → State (List F) × Attempt (TransactionEnrichment F)
      → Type 0
  Ending narration client s (s', returned result) = IsStored narration client s s' result
  Ending narration client s (s', raised e) = IsRefused narration client s s' e
