-- ===== src/RateLimiter.antt =====
-- narration-enrichment/src/narration_enrichment/rate_limiter.py: two sliding windows at once. Time is
-- a number of clock ticks, and the reading of `time_fn` is the first argument of a method. The lock
-- makes a method one step. A deque is a list, oldest call first.
pub mod Eviction
pub mod History
pub mod Bounds
mod Examples
use gen_ai_backend.Prelude.{ℕ, ◌+◌, ◌-◌, Bool, leb, if◌then◌else◌, List, [], ◌∷◌, ◌++◌, length}

pub record Window : Type 0 where
  pub limit : ℕ
  pub seconds : ℕ
  pub calls : List ℕ

-- The loop of `evict_stale`; `calls[0] <= now - seconds` is written without the subtraction.
pub evict : ℕ → ℕ → List ℕ → List ℕ
evict seconds now [] = []
evict seconds now (c ∷ cs) = if leb (c + seconds) now then evict seconds now cs else c ∷ cs

pub evict_stale : ℕ → Window → Window
evict_stale now w = record w { calls = evict w.seconds now w.calls }

pub data Scope : Type 0 where
  per_minute per_day : Scope

-- `acquire` returns, or raises RateLimitExceededError, or IndexError from `self.calls[0]` where the
-- deque is empty.
pub data Outcome : Type 0 where
  acquired : Outcome
  exceeded : Scope → ℕ → Outcome
  index_error : Outcome

-- `retry_after` inside the raise: `seconds - (now - calls[0])`.
pub refuse : Scope → ℕ → Window → List ℕ → Outcome
refuse scope now w [] = index_error
refuse scope now w (c ∷ cs) = exceeded scope (w.seconds + c - now)

pub record RateLimiter : Type 0 where
  pub minute : Window
  pub day : Window

abbrev pub one_minute : ℕ
one_minute = 60000

abbrev pub one_day : ℕ
one_day = 86400000

unfoldable pub new : ℕ → ℕ → RateLimiter
new minute_limit day_limit = record {
  minute = record { limit = minute_limit; seconds = one_minute; calls = [] };
  day = record { limit = day_limit; seconds = one_day; calls = [] };
}

abbrev pub is_full : Window → Bool
is_full w = leb w.limit (length w.calls)

abbrev pub add_call : ℕ → Window → Window
add_call now w = record w { calls = w.calls ++ now ∷ [] }

pub acquire : ℕ → RateLimiter → RateLimiter × Outcome
acquire now r =
    let m = evict_stale now r.minute in
    let d = evict_stale now r.day in
    if is_full m
    then (record { minute = m; day = d }, refuse per_minute now m m.calls)
    else if is_full d
    then (record { minute = m; day = d }, refuse per_day now d d.calls)
    else (record { minute = add_call now m; day = add_call now d }, acquired)

-- `max(0, limit - len(calls))` is the subtraction on ℕ.
pub remaining_calls : ℕ → RateLimiter → RateLimiter × (ℕ × ℕ)
unfolding evict_stale
remaining_calls now r =
    let m = evict_stale now r.minute in
    let d = evict_stale now r.day in
    (record { minute = m; day = d }, (m.limit - length m.calls, d.limit - length d.calls))

pub reset : RateLimiter → RateLimiter
reset r = record { minute = record (r.minute) { calls = [] }; day = record (r.day) { calls = [] } }
