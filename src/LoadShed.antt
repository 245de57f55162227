-- ===== src/LoadShed.antt =====
-- narration-enrichment/src/narration_enrichment/load_shed.py: `InFlightLimiter`. The lock makes a method
-- one step; `none` is LoadShedError.
pub mod Cap
mod Examples
use gen_ai_backend.Prelude.{ℕ, ◌+◌, ◌-◌, Option, none, some, leb, ltb, if◌then◌else◌}

pub record InFlightLimiter : Type 0 where
  pub max : ℕ
  pub in_flight : ℕ

pub new_limiter : ℕ → InFlightLimiter
new_limiter max_in_flight = record { max = max_in_flight; in_flight = 0 }

unfoldable pub acquire_slot : InFlightLimiter → Option InFlightLimiter
acquire_slot l =
    if leb l.max l.in_flight then none else some (record l { in_flight = l.in_flight + 1 })

unfoldable pub release_slot : InFlightLimiter → InFlightLimiter
release_slot l = if ltb 0 l.in_flight then record l { in_flight = l.in_flight - 1 } else l
