-- ===== src/Telemetry/Examples.antt =====
-- An enrichment whose first attempt is turned away and whose second one answers.
use gen_ai_backend.Prelude.{ℕ, zero, suc, ◌+◌, ◌-◌, ◌*◌, ltb, leb, true, none, some, []}
use gen_ai_backend.Errors.{Attempt, plain, api_error, returned, raised}
use gen_ai_backend.Floats.{Floats}
use gen_ai_backend.Telemetry.{Completion, CallTable, Wire, call_llm}
use gen_ai_backend.Telemetry.Attempts.{Tried, call_llm_settles}

abbrev whole : Floats
whole = record {
  F = ℕ;
  of_nat = λ n. n;
  add = λ a b. a + b;
  sub = λ a b. a - b;
  mul = λ a b. a * b;
  div = λ a b. a;
  log = λ a. a;
  sqrt = λ a. a;
  lt = ltb;
  le = leb;
}

abbrev answer_at : ℕ → Attempt (ℕ × Completion)
answer_at zero = raised (plain (api_error 503))
answer_at (suc i) = returned (7, some (some 10, none))

abbrev wire : ℕ → Wire ℕ
wire i = record { answer = answer_at i; latency_ms = 4; created_at = i; is_written = true }

abbrev empty : CallTable ℕ
empty = record { rows = []; next_id = 1 }

call_llm_settles_example :
    Tried whole "enrich" "m" wire 2 0 empty (call_llm whole "enrich" "m" wire empty)
call_llm_settles_example = call_llm_settles whole "enrich" "m" wire empty
