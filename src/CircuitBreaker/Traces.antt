-- ===== src/CircuitBreaker/Traces.antt =====
-- Tripping, failing fast, and the single probe, over lists of calls.
use gen_ai_backend.Prelude.{
  ℕ, suc, ◌+◌, ◌-◌, ◌≤◌, ◌<◌, ◌≡◌, refl, ◌≢◌, true, false, List, [], ◌∷◌, length, arith, leb, ltb,
  if◌then◌else◌, ◌⊎◌, inl, inr, Bool-cases,
}
use gen_ai_backend.CircuitBreaker.{
  CircuitBreaker, closed, opened, half_open, is_closed, allow, record_failure, allowed,
  circuit_open,
}
use gen_ai_backend.CircuitBreaker.Invariant.{IsValid}

-- A run of failures, each with its two readings.
pub fail_all : List (ℕ × ℕ) → CircuitBreaker → CircuitBreaker
unfolding record_failure
fail_all [] b = b
fail_all ((t1, t2) ∷ ts) b = fail_all ts (record_failure t1 t2 b)

stays_tripped :
    (ts : List (ℕ × ℕ)) (b : CircuitBreaker)
    → is_closed b.state ≡ false
    → is_closed (fail_all ts b).state ≡ false
unfolding fail_all
stays_tripped [] b h = h
stays_tripped ((t1, t2) ∷ ts) b h = stays_tripped ts (record_failure t1 t2 b) (ground arith)

-- What one failure does to a closed breaker.
record_failure-closed :
    (t1 t2 : ℕ) (b : CircuitBreaker)
    → b.state ≡ closed
    → let b' = record_failure t1 t2 b in
      (is_closed b'.state ≡ ltb (b.consecutive_failures + 1) b.failure_threshold)
      × (b'.consecutive_failures ≡ b.consecutive_failures + 1)
      × (b'.failure_threshold ≡ b.failure_threshold)
unfolding record_failure
record_failure-closed t1 t2 b h = ground arith

closed_of_is_closed : (b : CircuitBreaker) → is_closed b.state ≡ true → b.state ≡ closed
closed_of_is_closed b h = ground arith

-- From a closed breaker below its threshold, failures with no success between them leave it closed
-- exactly while the count of consecutive failures stays below the threshold.
pub trips_at_threshold :
    (ts : List (ℕ × ℕ)) (b : CircuitBreaker)
    → b.state ≡ closed
    → b.consecutive_failures < b.failure_threshold
    → is_closed (fail_all ts b).state ≡ ltb (b.consecutive_failures + length ts) b.failure_threshold
unfolding fail_all
trips_at_threshold [] b h l = ground arith
trips_at_threshold ((t1, t2) ∷ ts) b h l =
    let b' = record_failure t1 t2 b in
    let (closes, count, threshold) = record_failure-closed t1 t2 b h in
    elim (Bool-cases (is_closed b'.state)) [
      | inl still ↦
          ground (arith, closes, count, threshold, closed_of_is_closed b', trips_at_threshold ts b')
      | inr tripped ↦ ground (arith, closes, stays_tripped ts b' tripped)
    ]

-- Threads that ask in turn, with no outcome recorded between them: how many are let through.
pub granted : List (ℕ × ℕ) → CircuitBreaker → ℕ
unfolding allow
granted [] b = 0
granted ((t1, t2) ∷ ts) b =
    let (b', a) = allow t1 t2 b in
    let rest = granted ts b' in elim a [ allowed ↦ suc rest | circuit_open _ ↦ rest ]

none_granted :
    (ts : List (ℕ × ℕ)) (b : CircuitBreaker)
    → b.state ≡ half_open
    → b.probe_in_flight ≡ true
    → granted ts b ≡ 0
unfolding granted
none_granted [] b h p = refl
none_granted ((t1, t2) ∷ ts) b h p = ground (arith, none_granted ts b)

-- While a valid breaker is not closed, at most one of any number of asking threads is let through
-- before an outcome is recorded, whatever the clock reads.
pub single_probe :
    (ts : List (ℕ × ℕ)) (b : CircuitBreaker) → IsValid b → b.state ≢ closed → granted ts b ≤ 1
unfolding granted
single_probe [] b v h = omega arith
single_probe ((t1, t2) ∷ ts) b v h =
    ground (arith, single_probe ts b, none_granted ts (allow t1 t2 b).0)

-- An open breaker before its cooldown has elapsed rejects the call with the time that is left and
-- changes nothing; once it has elapsed the call is let through as the probe.
pub allow-opened :
    (t1 t2 : ℕ) (b : CircuitBreaker)
    → b.state ≡ opened
    → allow t1 t2 b ≡ (
        if leb (b.cooldown + b.opened_at) t1
        then (record b { state = half_open; probe_in_flight = true }, allowed)
        else (b, circuit_open (b.cooldown + b.opened_at - t2)))
unfolding allow
allow-opened t1 t2 b h = ground arith

-- A failure that opens the circuit, either the probe's or the one that reaches the threshold, makes
-- an `allow` that reads the clock less than a cooldown after it fail fast, with the time left.
pub fails_fast_after_failure :
    (t1 t2 t3 t4 : ℕ) (b : CircuitBreaker)
    → (b.state ≡ half_open)
      ⊎ ((b.state ≡ closed) × (b.failure_threshold ≤ b.consecutive_failures + 1))
    → t3 < b.cooldown + t2
    → (allow t3 t4 (record_failure t1 t2 b)).1 ≡ circuit_open (b.cooldown + t2 - t4)
unfolding allow record_failure
fails_fast_after_failure t1 t2 t3 t4 b e l = ground arith
