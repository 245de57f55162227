-- ===== src/ChatEvidence.antt =====
-- narration-enrichment/src/narration_enrichment/chat_service.py: the evidence of a chat message, its
-- retrievals put together with those of rag.py over the two tables.
pub mod Cited
mod Examples
use gen_ai_backend.Prelude.{ℕ, Option, none, some, List}
use gen_ai_backend.Prelude.Text.{Text}
use gen_ai_backend.Errors.{plain, other, Attempt, returned, raised}
use gen_ai_backend.Floats.{Floats, ratio}
use gen_ai_backend.Enrichments.{EnrichmentRecord}
use gen_ai_backend.PolicyStore.{PolicyChunk}
use gen_ai_backend.Rag.{hybrid_find_similar_examples, hybrid_retrieve_policy_chunks}
use gen_ai_backend.ChatService.{Sources}

-- A ranked key with no row is a KeyError.
abbrev pub or_key_error {ℓ} : {A : Type ℓ} → Option A → Attempt A
or_key_error none = raised (plain other)
or_key_error (some a) = returned a

-- `CHAT_TOP_K`
abbrev pub chat_top_k : ℕ
chat_top_k = 3

module _ (fl : Floats) (lower : Text → Text) where
  open fl use {F}

  -- `CHAT_MIN_SIMILARITY` is 0.65, `CHAT_POLICY_MIN_SIMILARITY` is 0.60.
  abbrev pub chat_sources :
      Option (Text → Attempt (List F))
      → List (EnrichmentRecord (List F))
      → List (PolicyChunk (List F))
      → Sources (List F) F
  chat_sources raw_client records chunks = record {
    raw_client = raw_client;
    find_examples = λ message query.
        or_key_error
          (hybrid_find_similar_examples fl lower message query chat_top_k (ratio fl 13 20) records);
    find_chunks = λ message query.
        or_key_error
          (hybrid_retrieve_policy_chunks fl lower message query chat_top_k (ratio fl 3 5) chunks);
  }
