-- ===== src/CircuitBreaker.antt =====
-- narration-enrichment/src/narration_enrichment/circuit_breaker.py: the breaker on the provider
-- boundary. Time is a number of clock ticks; each reading of `time_fn` that a method makes is an
-- argument of it, in the order of the readings. The lock makes each method one step, so a thread
-- interleaving is a list of calls. A float difference of two readings is compared by adding the
-- subtrahend on the other side, which is the same test for every pair of readings.
pub mod Invariant
pub mod Traces
mod Examples
use gen_ai_backend.Prelude.{
  ℕ, ◌+◌, ◌-◌, Bool, true, false, not, ◌&&◌, leb, if◌then◌else◌, List, [], ◌∷◌,
}

pub data State : Type 0 where
  closed opened half_open : State

abbrev pub is_closed : State → Bool
is_closed closed = true
is_closed _ = false

abbrev pub is_open : State → Bool
is_open opened = true
is_open _ = false

abbrev is_half_open : State → Bool
is_half_open half_open = true
is_half_open _ = false

pub record CircuitBreaker : Type 0 where
  pub failure_threshold : ℕ
  pub cooldown : ℕ
  pub state : State
  pub consecutive_failures : ℕ
  pub opened_at : ℕ
  pub probe_in_flight : Bool

unfoldable pub new : ℕ → ℕ → CircuitBreaker
new failure_threshold cooldown = record {
  failure_threshold = failure_threshold;
  cooldown = cooldown;
  state = closed;
  consecutive_failures = 0;
  opened_at = 0;
  probe_in_flight = false;
}

-- `_effective_state`: the state read under the lock, an elapsed cooldown turned into HALF_OPEN.
unfoldable pub effective_state : ℕ → CircuitBreaker → CircuitBreaker
effective_state now b =
    if is_open b.state && leb (b.cooldown + b.opened_at) now
    then record b { state = half_open; probe_in_flight = false }
    else b

-- What `allow` answers: it returns, or raises CircuitOpenError with `retry_after_seconds`.
pub data Answer : Type 0 where
  allowed : Answer
  circuit_open : ℕ → Answer

-- `max(0.0, cooldown - (now - opened_at))`: subtraction on ℕ is cut at 0 as the constructor's max is.
abbrev pub remaining : ℕ → CircuitBreaker → ℕ
remaining now b = b.cooldown + b.opened_at - now

-- The length of the one-second hint that a taken probe slot gives.
abbrev one_second : ℕ
one_second = 1000

unfoldable pub allow_in : ℕ → CircuitBreaker → CircuitBreaker × Answer
allow_in now b =
    if is_closed b.state
    then (b, allowed)
    else if is_half_open b.state && not b.probe_in_flight
    then (record b { probe_in_flight = true }, allowed)
    else (b, circuit_open (if is_half_open b.state then one_second else remaining now b))

unfoldable pub allow : ℕ → ℕ → CircuitBreaker → CircuitBreaker × Answer
unfolding effective_state allow_in
allow t1 t2 b = allow_in t2 (effective_state t1 b)

unfoldable pub record_success : CircuitBreaker → CircuitBreaker
record_success b = record b { state = closed; consecutive_failures = 0; probe_in_flight = false }

unfoldable pub failure_in : ℕ → CircuitBreaker → CircuitBreaker
failure_in now b =
    if is_half_open b.state
    then record b { state = opened; opened_at = now; probe_in_flight = false }
    else let counted = record b { consecutive_failures = b.consecutive_failures + 1 } in
      if is_closed counted.state && leb counted.failure_threshold counted.consecutive_failures
      then record counted { state = opened; opened_at = now }
      else counted

unfoldable pub record_failure : ℕ → ℕ → CircuitBreaker → CircuitBreaker
unfolding effective_state failure_in
record_failure t1 t2 b = failure_in t2 (effective_state t1 b)

-- One call of a thread, with the clock readings that it makes.
pub data Call : Type 0 where
  ask : ℕ → ℕ → Call
  success : Call
  failure : ℕ → ℕ → Call

pub step : Call → CircuitBreaker → CircuitBreaker
unfolding allow record_success record_failure
step (ask t1 t2) b = (allow t1 t2 b).0
step success b = record_success b
step (failure t1 t2) b = record_failure t1 t2 b

-- The calls of all threads, in the order in which they take the lock.
unfoldable pub run : List Call → CircuitBreaker → CircuitBreaker
run [] b = b
run (c ∷ cs) b = run cs (step c b)
