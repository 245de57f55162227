-- ===== src/Telemetry.antt =====
-- narration-enrichment/src/narration_enrichment/telemetry.py: `record`, the row of each attempt of a
-- provider call, with the table `llm_calls` of db.py; service.py: `_call_llm` under its retry. What a
-- wire call answers is an argument, and so is whether the database takes a row. The line that is
-- logged over the daily budget is left out.
pub mod Attempts
mod Examples
use gen_ai_backend.Prelude.{
  ℕ, zero, suc, ◌+◌, String, str_eq, Bool, true, false, Option, none, some, List, [], ◌∷◌, ◌++◌,
  if◌then◌else◌,
}
use gen_ai_backend.Errors.{
  Raised, Attempt, returned, raised, is_transient_provider_error, counts_as_provider_down,
}
use gen_ai_backend.Floats.{Floats, ratio}

pub data Outcome : Type 0 where
  ok provider_down error : Outcome

-- `usage_metadata`, if the completion has it: the two counts, each if it is a number.
abbrev pub Completion : Type 0
Completion = Option (Option ℕ × Option ℕ)

abbrev pub extract_usage : Completion → Option ℕ × Option ℕ
extract_usage none = (none, none)
extract_usage (some counts) = counts

pub record LlmCall (F : Type 0) : Type 0 where
  pub id : ℕ
  pub surface : String
  pub model : String
  pub latency_ms : ℕ
  pub outcome : Outcome
  pub prompt_tokens : Option ℕ
  pub completion_tokens : Option ℕ
  pub est_cost_usd : Option F
  pub created_at : ℕ

pub record CallTable (F : Type 0) : Type 0 where
  pub rows : List (LlmCall F)
  pub next_id : ℕ

-- One wire call: what it answers, and the readings and the write of its row.
pub record Wire (A : Type 0) : Type 0 where
  pub answer : Attempt (A × Completion)
  pub latency_ms : ℕ
  pub created_at : ℕ
  pub is_written : Bool

module _ {A : Type 0} where
  -- The tokens stay unknown if the call raises.
  abbrev pub usage : Attempt (A × Completion) → Option ℕ × Option ℕ
  usage (raised e) = (none, none)
  usage (returned (a, completion)) = extract_usage completion

  abbrev pub outcome_of : Attempt (A × Completion) → Outcome
  outcome_of (returned a) = ok
  outcome_of (raised e) = if counts_as_provider_down e then provider_down else error

  abbrev pub result_of : Attempt (A × Completion) → Attempt A
  result_of (returned (a, completion)) = returned a
  result_of (raised e) = raised e

  abbrev pub is_retried : Attempt (A × Completion) → Bool
  is_retried (returned a) = false
  is_retried (raised e) = is_transient_provider_error e

module _ (fl : Floats) where
  open fl use {F, of_nat, add, mul, div}

  -- `PRICE_TABLE`: USD for a million tokens of the prompt and of the completion.
  abbrev pub price_of : String → Option (F × F)
  price_of model =
      if str_eq model "gemini-3.6-flash" then some (ratio fl 3 10, ratio fl 5 2) else none

  abbrev pub cost : ℕ → ℕ → Option (F × F) → Option F
  cost prompt completion none = none
  cost prompt completion (some (in_price, out_price)) = some (
      div (add (mul (of_nat prompt) in_price) (mul (of_nat completion) out_price))
        (of_nat 1_000_000))

  abbrev pub estimate_cost : String → Option ℕ × Option ℕ → Option F
  estimate_cost model (some prompt, some completion) = cost prompt completion (price_of model)
  estimate_cost model _ = none

  module _ {A : Type 0} (surface model : String) where
    abbrev pub call_row : ℕ → Wire A → LlmCall F
    call_row id w = record {
      id = id;
      surface = surface;
      model = model;
      latency_ms = w.latency_ms;
      outcome = outcome_of w.answer;
      prompt_tokens = (usage w.answer).0;
      completion_tokens = (usage w.answer).1;
      est_cost_usd = estimate_cost model (usage w.answer);
      created_at = w.created_at;
    }

    -- A write that fails is only logged.
    abbrev pub write_row : Wire A → CallTable F → CallTable F
    write_row w t =
        if w.is_written
        then record { rows = t.rows ++ call_row t.next_id w ∷ []; next_id = t.next_id + 1 }
        else t

    -- `record` round one wire call.
    unfoldable pub recorded : Wire A → CallTable F → CallTable F × Attempt A
    recorded w t = (write_row w t, result_of w.answer)

    abbrev pub after_attempt :
        CallTable F × Attempt A → Bool → CallTable F × Attempt A → CallTable F × Attempt A
    after_attempt done false more = done
    after_attempt done true more = more

    -- The attempt number `i`, with `n` more allowed after it.
    unfoldable pub attempt_from : (ℕ → Wire A) → ℕ → ℕ → CallTable F → CallTable F × Attempt A
    attempt_from wire zero i t = recorded (wire i) t
    attempt_from wire (suc n) i t =
        let done = recorded (wire i) t in
        let more = attempt_from wire n (suc i) done.0 in
        after_attempt done (is_retried ((wire i).answer)) more

    -- `stop_after_attempt(3)`
    unfoldable pub call_llm : (ℕ → Wire A) → CallTable F → CallTable F × Attempt A
    call_llm wire t = attempt_from wire 2 0 t
