-- ===== src/Enrichment.antt =====
-- narration-enrichment/src/narration_enrichment/service.py: `enrich_narration`, with the chain of models
-- of model_router.py. A call of `_call_llm` on a model, its retries included, is an argument, and so
-- are the readings of the breaker's clock.
pub mod Breaker
mod Examples
use gen_ai_backend.Prelude.{
  ℕ, String, str_eq, Bool, true, false, ◌||◌, Option, none, some, if◌then◌else◌,
}
use gen_ai_backend.Errors.{
  Raised, plain, circuit_open, Attempt, returned, raised, counts_as_provider_down,
}
use gen_ai_backend.CircuitBreaker.{
  CircuitBreaker, Answer, allowed, circuit_open as refused, allow, record_success, record_failure,
}

-- The settings that route the surface `enrich`.
pub record Settings : Type 0 where
  pub model_name : String
  pub model_enrich : String
  pub fallback_model : String

pub model_for : Settings → String
model_for s = if str_eq s.model_enrich "" then s.model_name else s.model_enrich

-- The primary model and the fallback, which is dropped when it is the primary.
pub chain_for : Settings → String × Option String
unfolding model_for
chain_for s = (
  model_for s,
  if str_eq s.fallback_model "" || str_eq s.fallback_model (model_for s)
      then none
      else some s.fallback_model,
)

-- The readings of the clock: two for `allow`, two for each `record_failure`.
pub record Readings : Type 0 where
  pub gate : ℕ × ℕ
  pub first : ℕ × ℕ
  pub second : ℕ × ℕ

module _ {A : Type 0} (call : String → Attempt A) (clock : Readings) where
  -- The breaker's part of the `except` branch.
  abbrev pub note_failure : ℕ × ℕ → Raised → CircuitBreaker → CircuitBreaker
  note_failure t e b =
      if counts_as_provider_down e then record_failure t.0 t.1 b else record_success b

  abbrev pub last_attempt : Attempt A → CircuitBreaker → CircuitBreaker × Attempt A
  last_attempt (returned a) b = (record_success b, returned a)
  last_attempt (raised e) b = (note_failure clock.second e b, raised e)

  abbrev pub fall_back : Raised → Option String → CircuitBreaker → CircuitBreaker × Attempt A
  fall_back e none b = (b, raised e)
  fall_back e (some model) b =
      if counts_as_provider_down e then last_attempt (call model) b else (b, raised e)

  abbrev pub first_attempt : Attempt A → Option String → CircuitBreaker → CircuitBreaker × Attempt A
  first_attempt (returned a) fallback b = (record_success b, returned a)
  first_attempt (raised e) fallback b = fall_back e fallback (note_failure clock.first e b)

  abbrev pub behind_gate :
      String × Option String → CircuitBreaker × Answer → CircuitBreaker × Attempt A
  behind_gate chain (b, refused retry_after) = (b, raised (plain (circuit_open retry_after)))
  behind_gate chain (b, allowed) = first_attempt (call chain.0) chain.1 b

  unfoldable pub enrich_narration : Settings → CircuitBreaker → CircuitBreaker × Attempt A
  enrich_narration s b = behind_gate (chain_for s) (allow clock.gate.0 clock.gate.1 b)
