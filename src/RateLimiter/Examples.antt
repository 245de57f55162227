-- ===== src/RateLimiter/Examples.antt =====
-- The limiter's theorems at a concrete run, and the limiter with a limit of 0.
use gen_ai_backend.Prelude.{ℕ, ◌+◌, ◌≤◌, ◌≡◌, false, refl, List, [], ◌∷◌, arith}
use gen_ai_backend.RateLimiter.{
  index_error, per_minute, one_minute, one_day, evict_stale, evict, is_full, acquire, refuse, new,
  remaining_calls, reset,
}
use gen_ai_backend.RateLimiter.Eviction.{count_recent}
use gen_ai_backend.RateLimiter.History.{is_acquired, start, admit, admit_all}
use gen_ai_backend.RateLimiter.Bounds.{
  both_windows_bounded, acquire_exact, window_of, retry_after_honest,
}

abbrev readings : List ℕ
readings = 0 ∷ 10 ∷ 20 ∷ 70000 ∷ []

admits_three : (admit_all readings (start 2 5)).admitted ≡ 0 ∷ 10 ∷ 70000 ∷ []
unfolding admit_all admit acquire evict_stale evict refuse new
admits_three = refl

peek : (remaining_calls 70001 (admit_all readings (start 2 5)).limiter).1 ≡ (1, 2)
unfolding admit_all admit acquire evict_stale evict refuse new remaining_calls
peek = refl

reset_forgets : reset (admit_all readings (start 2 5)).limiter ≡ new 2 5
unfolding admit_all admit acquire evict_stale evict refuse new reset
reset_forgets = refl

-- With a limit of 0 the refusal reads the head of an empty deque.
limit_zero : (acquire 0 (new 0 5)).1 ≡ index_error
unfolding acquire evict_stale evict refuse new
limit_zero = refl

both_windows_bounded_example :
    (count_recent one_minute 70000 (admit_all readings (start 2 5)).admitted ≤ 2)
    × (count_recent one_day 70000 (admit_all readings (start 2 5)).admitted ≤ 5)
both_windows_bounded_example = both_windows_bounded 2 5 70000 readings (omega arith)

acquire_exact_example :
    is_acquired (acquire 70001 (admit_all readings (start 2 3)).limiter).1 ≡ false
unfolding admit_all admit acquire evict_stale evict refuse new
acquire_exact_example = acquire_exact 2 3 70001 readings (omega arith)

retry_after_honest_example :
    is_full (
      evict_stale
        (20 + 59980)
        (window_of per_minute (acquire 20 (admit_all (0 ∷ 10 ∷ []) (start 2 5)).limiter).0))
    ≡ false
unfolding admit_all admit acquire evict_stale evict refuse new
retry_after_honest_example =
    retry_after_honest 2 5 20 59980 per_minute (0 ∷ 10 ∷ []) (omega arith) refl
