-- ===== src/EnrichWork/Examples.antt =====
-- An enrichment in an outage of the embedding calls, whose model invents a citation.
use gen_ai_backend.Prelude.{ℕ, String, Option, some, List, [], ◌∷◌}
use gen_ai_backend.Prelude.Text.{Text, codes}
use gen_ai_backend.Errors.{Attempt, returned, raised, plain, timeout}
use gen_ai_backend.CircuitBreaker.{new}
use gen_ai_backend.RateLimiter.{new as new_limiter}
use gen_ai_backend.Enrichment.{Settings, Readings}
use gen_ai_backend.Floats.{Floats}
use gen_ai_backend.PolicyStore.{PolicyChunk}
use gen_ai_backend.EnrichWork.{TransactionEnrichment, Embedder, State}
use gen_ai_backend.Prelude.{◌+◌, ◌-◌, ◌*◌, ltb, leb}

abbrev whole : Floats
whole = record {
  F = ℕ;
  of_nat = λ n. n;
  add = λ a b. a + b;
  sub = λ a b. a - b;
  mul = λ a b. a * b;
  div = λ a b. a;
  log = λ a. a;
  sqrt = λ a. a;
  lt = λ a b. ltb a b;
  le = λ a b. leb a b;
}

abbrev settings : Settings
settings = record { model_name = "m"; model_enrich = ""; fallback_model = "" }

abbrev answer : TransactionEnrichment ℕ
answer = record {
  merchant = codes "Swiggy";
  category = codes "food_delivery";
  transaction_type = codes "UPI";
  policy_citations =
      record { doc_id = "made up"; chunk_index = 0; snippet = []; similarity_score = 1 } ∷ [];
}

abbrev clock : Readings
clock = record { gate = (1, 1); first = (2, 2); second = (3, 3) }

abbrev chunk : PolicyChunk (List ℕ)
chunk = record {
  id = 1;
  doc_id = "fees";
  chunk_index = 0;
  content = codes "swiggy is food";
  embedding = some (1 ∷ []);
  embedded_at = 1;
}

abbrev embedder : Embedder (List ℕ)
embedder = record {
  query = λ text. raised (plain timeout);
  document = λ text. raised (plain timeout);
}

abbrev state : State (List ℕ)
state = record { limiter = new_limiter 10 100; breaker = new 5 30_000; records = [] }

abbrev call_llm : Option Text → Option Text → String → Attempt (TransactionEnrichment ℕ)
call_llm context policy model = returned answer

abbrev lower : Text → Text
lower text = text
