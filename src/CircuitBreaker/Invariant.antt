-- ===== src/CircuitBreaker/Invariant.antt =====
-- What holds of the breaker between two calls, in every interleaving.
use gen_ai_backend.Prelude.{ℕ, ◌≤◌, ◌<◌, ◌≡◌, ◌≢◌, true, List, [], ◌∷◌, arith}
use gen_ai_backend.CircuitBreaker.{
  CircuitBreaker, closed, half_open, new, Call, ask, success, failure, step, run,
}

pub record IsValid (b : CircuitBreaker) : Type 0 where
  pub threshold_pos : 0 < b.failure_threshold
  pub below : b.state ≡ closed → b.consecutive_failures < b.failure_threshold
  pub tripped : b.state ≢ closed → b.failure_threshold ≤ b.consecutive_failures
  pub probing : b.probe_in_flight ≡ true → b.state ≡ half_open

new-IsValid : (threshold cooldown : ℕ) → 0 < threshold → IsValid (new threshold cooldown)
unfolding new
new-IsValid threshold cooldown h = ground arith

step-IsValid : (c : Call) (b : CircuitBreaker) → IsValid b → IsValid (step c b)
unfolding step
step-IsValid (ask t1 t2) b h = ground arith
step-IsValid success b h = ground arith
step-IsValid (failure t1 t2) b h = ground arith

run_keeps-IsValid : (cs : List Call) (b : CircuitBreaker) → IsValid b → IsValid (run cs b)
unfolding run
run_keeps-IsValid [] b h = h
run_keeps-IsValid (c ∷ cs) b h = run_keeps-IsValid cs (step c b) (step-IsValid c b h)

-- A breaker with a positive threshold, after any calls in any order and at any readings: it is
-- closed only below the threshold, not closed only at it or above, and a probe is in flight only in
-- HALF_OPEN.
pub run-IsValid :
    (threshold cooldown : ℕ) (cs : List Call)
    → 0 < threshold
    → IsValid (run cs (new threshold cooldown))
run-IsValid threshold cooldown cs h =
    run_keeps-IsValid cs (new threshold cooldown) (new-IsValid threshold cooldown h)
