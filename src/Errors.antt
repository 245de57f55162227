-- ===== src/Errors.antt =====
-- Python exceptions, as far as the handlers tell them apart: the class, and the class of `__cause__`.
-- narration-enrichment/src/narration_enrichment/service.py and worker.py judge them.
use gen_ai_backend.Prelude.{ℕ, Bool, true, false, ◌||◌, ◌==◌, Option, none, some}

pub data Kind : Type 0 where
  timeout : Kind  -- httpx.TimeoutException
  api_error : ℕ → Kind  -- google.genai.errors.APIError, with its code
  instructor_retry : Kind  -- InstructorRetryException
  circuit_open : ℕ → Kind  -- CircuitOpenError, with its retry_after_seconds
  rate_limited : ℕ → Kind  -- RateLimitExceededError, with its retry_after_seconds
  index_error value_error integrity_error other : Kind

pub record Raised : Type 0 where
  pub kind : Kind
  pub cause : Option Kind

-- `raise` with no `from`.
abbrev pub plain : Kind → Raised
plain k = record { kind = k; cause = none }

-- Either a value or an exception.
pub data Attempt {ℓ} (A : Type ℓ) : Type ℓ where
  returned : A → Attempt A
  raised : Raised → Attempt A

-- `_TRANSIENT_CODES`
abbrev is_transient_code : ℕ → Bool
is_transient_code c = c == 429 || c == 503 || c == 504

abbrev pub is_transient_api : Kind → Bool
is_transient_api (api_error c) = is_transient_code c
is_transient_api _ = false

abbrev is_timeout : Kind → Bool
is_timeout timeout = true
is_timeout _ = false

abbrev pub on_cause : (Kind → Bool) → Option Kind → Bool
on_cause p none = false
on_cause p (some k) = p k

-- worker.py `_is_transient`
unfoldable pub is_transient : Raised → Bool
is_transient e = is_timeout e.kind || is_transient_api e.kind

-- service.py `_is_transient_provider_error`
unfoldable pub is_transient_provider_error : Raised → Bool
is_transient_provider_error e = is_transient_api e.kind || on_cause is_transient_api e.cause

-- service.py `counts_as_provider_down`
unfoldable pub counts_as_provider_down : Raised → Bool
unfolding is_transient_provider_error
counts_as_provider_down e =
    is_timeout e.kind || on_cause is_timeout e.cause || is_transient_provider_error e
