-- ===== src/Enrichment/Examples.antt =====
-- A provider whose primary model is down, and a breaker in each state.
use gen_ai_backend.Prelude.{ℕ, String, str_eq, ◌≡◌, refl, false, arith, if◌then◌else◌}
use gen_ai_backend.Errors.{
  plain, timeout, Attempt, returned, raised, counts_as_provider_down, is_transient_provider_error,
}
use gen_ai_backend.CircuitBreaker.{
  CircuitBreaker, opened, half_open, new, allow, allow_in, effective_state, failure_in,
  record_success, record_failure,
}
use gen_ai_backend.CircuitBreaker.Invariant.{IsValid}
use gen_ai_backend.Enrichment.{Settings, Readings, enrich_narration, chain_for, model_for}
use gen_ai_backend.Enrichment.Breaker.{probe_returned}

abbrev settings : Settings
settings = record { model_name = "big"; model_enrich = ""; fallback_model = "small" }

abbrev clock : Readings
clock = record { gate = (100, 100); first = (110, 110); second = (120, 120) }

abbrev call : String → Attempt ℕ
call m = if str_eq m "small" then returned 7 else raised (plain timeout)

abbrev down : String → Attempt ℕ
down m = raised (plain timeout)

abbrev half : CircuitBreaker
half = record (new 3 50) { state = half_open; consecutive_failures = 3; opened_at = 20 }

half-IsValid : IsValid half
unfolding new
half-IsValid = record {
  threshold_pos = omega arith;
  below = λ e. cc;
  tripped = λ e. omega arith;
  probing = λ e. cc;
}

falls_back : (enrich_narration call clock settings (new 3 50)).1 ≡ returned 7
unfolding enrich_narration chain_for model_for allow allow_in effective_state new record_success
    record_failure failure_in counts_as_provider_down is_transient_provider_error
falls_back = refl

probe_returned_example : (enrich_narration down clock settings half).0.probe_in_flight ≡ false
unfolding allow allow_in effective_state new
probe_returned_example = probe_returned down clock settings half half-IsValid refl

abbrev tripped : CircuitBreaker
tripped = record (new 3 50) { state = opened; consecutive_failures = 3; opened_at = 90 }
