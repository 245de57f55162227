-- ===== src/Telemetry/Attempts.antt =====
-- narration-enrichment/src/narration_enrichment/service.py: how often `_call_llm` asks the provider, what
-- it comes to, and the rows of its attempts.
use mathlib.Core.List.{append-nil, append_assoc}
use gen_ai_backend.Prelude.{
  ℕ, zero, suc, ◌+◌, ◌≤◌, ◌≡◌, refl, sym, ap, ◌∙◌, ◌⊎◌, inl, inr, String, true, false, Bool-cases,
  Option, none, some, List, [], ◌∷◌, ◌++◌, if◌then◌else◌, arith,
}
use gen_ai_backend.Errors.{Attempt, returned, raised, counts_as_provider_down}
use gen_ai_backend.Floats.{Floats}
use gen_ai_backend.Telemetry.{
  Outcome, ok, provider_down, error, Completion, LlmCall, usage, outcome_of, estimate_cost, Wire,
  CallTable, result_of, is_retried, write_row, recorded, attempt_from, call_llm,
}

module _ (fl : Floats) {A : Type 0} (surface model : String) (wire : ℕ → Wire A) where
  open fl use {F}

  -- The verdict on an answer, and the tokens that it says it took.
  abbrev verdict : Attempt (A × Completion) → Outcome
  verdict (returned a) = ok
  verdict (raised e) = if counts_as_provider_down e then provider_down else error

  abbrev tokens : Attempt (A × Completion) → Option ℕ × Option ℕ
  tokens (returned (a, some counts)) = counts
  tokens _ = (none, none)

  -- The rows of `k` attempts from the number `i` on: one for each attempt whose write the database
  -- takes, whether the attempt answered or failed, numbered on from `id`.
  abbrev pub rows_of : ℕ → ℕ → ℕ → List (LlmCall F)
  rows_of i zero id = []
  rows_of i (suc k) id =
      let w = wire i in
      let later = rows_of (suc i) k (id + 1) in
      let unwritten = rows_of (suc i) k id in
      if w.is_written
      then record {
        id = id;
        surface = surface;
        model = model;
        latency_ms = w.latency_ms;
        outcome = verdict w.answer;
        prompt_tokens = (tokens w.answer).0;
        completion_tokens = (tokens w.answer).1;
        est_cost_usd = estimate_cost fl model (tokens w.answer);
        created_at = w.created_at;
      }
        ∷ later
      else unwritten

  abbrev pub AllRetried : ℕ → ℕ → Type 0
  AllRetried i zero = Unit
  AllRetried i (suc k) = (is_retried ((wire i).answer) ≡ true) × AllRetried (suc i) k

  -- After `again` attempts that failed for a moment, the last attempt decides: it is one that is not
  -- retried, or no more are allowed.
  pub record Tried (allowed i : ℕ) (t : CallTable F) (out : CallTable F × Attempt A) : Type 0 where
    pub again : ℕ
    pub bounded : again ≤ allowed
    pub earlier : AllRetried i again
    pub last : (again ≡ allowed) ⊎ (is_retried ((wire (i + again)).answer) ≡ false)
    pub rows : out.0.rows ≡ t.rows ++ rows_of i (suc again) t.next_id
    pub answer : out.1 ≡ result_of ((wire (i + again)).answer)

  tokens_lem : (a : Attempt (A × Completion)) → usage a ≡ tokens a
  tokens_lem (returned (a, none)) = refl
  tokens_lem (returned (a, some counts)) = refl
  tokens_lem (raised e) = refl

  verdict_lem : (a : Attempt (A × Completion)) → outcome_of a ≡ verdict a
  verdict_lem (returned a) = refl
  verdict_lem (raised e) = refl

  -- A write, and then the rows of later attempts, are the rows from the one attempt on.
  write-rows :
      (i k : ℕ) (t : CallTable F)
      → let t' = write_row fl surface model (wire i) t in
        t'.rows ++ rows_of (suc i) k t'.next_id ≡ t.rows ++ rows_of i (suc k) t.next_id
  write-rows i k t = elim (Bool-cases ((wire i).is_written)) [
    | inl y ↦
        rw (y, tokens_lem ((wire i).answer), verdict_lem ((wire i).answer))
          (append_assoc t.rows _ (rows_of (suc i) k (t.next_id + 1)))
    | inr n ↦ rw n refl
  ]

  stopped :
      (n i : ℕ) (t : CallTable F)
      → (0 ≡ n) ⊎ (is_retried ((wire i).answer) ≡ false)
      → Tried n i t (recorded fl surface model (wire i) t)
  unfolding recorded
  stopped n i t last =
      let here : i ≡ i + 0 = omega arith in
      record {
        again = 0;
        bounded = omega arith;
        earlier = tt;
        last = elim last [
          | inl spent ↦ inl spent
          | inr final ↦ inr (ap (λ k. is_retried ((wire k).answer)) (sym here) ∙ final)
        ];
        rows = sym (append-nil ((write_row fl surface model (wire i) t).rows)) ∙ write-rows i 0 t;
        answer = ap (λ k. result_of ((wire k).answer)) here;
      }

  retried :
      (n i : ℕ) (t : CallTable F) (more : CallTable F × Attempt A)
      → is_retried ((wire i).answer) ≡ true
      → Tried n (suc i) (write_row fl surface model (wire i) t) more
      → Tried (suc n) i t more
  retried n i t more passing h =
      let next : suc i + h.again ≡ i + suc (h.again) = omega arith in
      record {
        again = suc (h.again);
        bounded = omega (arith, h.bounded);
        earlier = (passing, h.earlier);
        last = elim (h.last) [
          | inl spent ↦ inl (ap suc spent)
          | inr final ↦ inr (ap (λ k. is_retried ((wire k).answer)) (sym next) ∙ final)
        ];
        rows = h.rows ∙ write-rows i (suc (h.again)) t;
        answer = h.answer ∙ ap (λ k. result_of ((wire k).answer)) next;
      }

  attempt_from-Tried :
      (n i : ℕ) (t : CallTable F) → Tried n i t (attempt_from fl surface model wire n i t)
  unfolding attempt_from recorded
  attempt_from-Tried zero i t = stopped zero i t (inl refl)
  attempt_from-Tried (suc n) i t = elim (Bool-cases (is_retried ((wire i).answer))) [
    | inl passing ↦
        let t' = write_row fl surface model (wire i) t in
        rw passing (
          retried n i t (attempt_from fl surface model wire n (suc i) t') passing
            (attempt_from-Tried n (suc i) t'))
    | inr final ↦ rw final (stopped (suc n) i t (inr final))
  ]

  -- A call of the model for an enrichment makes at most three calls of the client, each of which may
  -- itself ask the model again for a better shape: again only after a failure that may pass, and until
  -- a call answers, fails for good or is the third. It comes to what the last call came to, whether or
  -- not rows can be written. Each call, whether it answered or failed, adds one row if the database
  -- takes it, in order, with the verdict on the answer and the tokens that it reports.
  pub call_llm_settles : (t : CallTable F) → Tried 2 0 t (call_llm fl surface model wire t)
  unfolding call_llm
  call_llm_settles t = attempt_from-Tried 2 0 t
