-- ===== src/CircuitBreaker/Examples.antt =====
-- The breaker's theorems at concrete runs, and the runs themselves.
use gen_ai_backend.Prelude.{◌≤◌, ◌≡◌, false, refl, List, [], ◌∷◌, arith}
use gen_ai_backend.CircuitBreaker.{
  CircuitBreaker, opened, closed, is_closed, new, Call, ask, success, failure, step, run, allow,
  allowed,
}
use gen_ai_backend.CircuitBreaker.Invariant.{IsValid, run-IsValid}
use gen_ai_backend.CircuitBreaker.Traces.{fail_all, granted, trips_at_threshold, single_probe}

-- Two failures at a threshold of two, then a probe after the cooldown.
abbrev outage : List Call
outage = ask 1 1 ∷ failure 2 2 ∷ ask 3 3 ∷ failure 4 5 ∷ []

abbrev tripped : CircuitBreaker
tripped = run outage (new 2 100)

tripped_is_open : tripped.state ≡ opened
unfolding run step new
tripped_is_open = refl

probe_after_cooldown : (allow 105 105 tripped).1 ≡ allowed
unfolding run step new allow
probe_after_cooldown = refl

recovers : (run (ask 105 105 ∷ success ∷ []) tripped).state ≡ closed
unfolding run step new
recovers = refl

run-IsValid_example : IsValid tripped
run-IsValid_example = run-IsValid 2 100 outage (omega arith)

trips_at_threshold_example : is_closed (fail_all ((2, 2) ∷ (4, 5) ∷ []) (new 2 100)).state ≡ false
unfolding new
trips_at_threshold_example =
    trips_at_threshold ((2, 2) ∷ (4, 5) ∷ []) (new 2 100) refl (omega arith)

single_probe_example : granted ((105, 105) ∷ (105, 106) ∷ (230, 230) ∷ []) tripped ≤ 1
unfolding run step new
single_probe_example =
    single_probe ((105, 105) ∷ (105, 106) ∷ (230, 230) ∷ []) tripped
      (unfold new in run-IsValid 2 100 outage (omega arith)) (λ e. cc)
