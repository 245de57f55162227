-- ===== src/Chat/Calls.antt =====
-- One call of the chat's model behind the breaker: what it sends and what it answers.
use mathlib.Core.List.{append-nil}
use gen_ai_backend.Prelude.{
  ℕ, String, ◌≡◌, refl, ap, sym, ◌⊎◌, Bool, true, false, Bool-cases, inl, inr, List, [], ◌∷◌,
  if◌then◌else◌, ◌++◌, arith,
}
use gen_ai_backend.Prelude.Text.{Text, is_empty, strip}
use gen_ai_backend.Errors.{
  Raised, plain, circuit_open, Attempt, returned, raised, counts_as_provider_down,
}
use gen_ai_backend.CircuitBreaker.{
  CircuitBreaker, Answer, allowed, half_open, is_closed, circuit_open as refused, allow, allow_in,
  effective_state, failure_in, record_success, record_failure,
}
use gen_ai_backend.Chat.{
  ChatStep, fallback_answer, Readings, Run, Provider, PromptParts, content_of, after_create, gated,
  call,
}
use gen_ai_backend.Chat.Trail.{Grown, GrownBy}

failure_frees :
    (t1 t2 : ℕ) (b : CircuitBreaker)
    → (b.probe_in_flight ≡ true → b.state ≡ half_open)
    → (record_failure t1 t2 b).probe_in_flight ≡ false
unfolding record_failure effective_state failure_in
failure_frees t1 t2 b h = ground arith

allowed_probes :
    (t1 t2 : ℕ) (b : CircuitBreaker)
    → b.probe_in_flight ≡ false
    → (allow t1 t2 b).0.probe_in_flight ≡ true
    → (allow t1 t2 b).0.state ≡ half_open
unfolding allow allow_in effective_state
allowed_probes t1 t2 b h p = ground arith

refused_frees :
    (t1 t2 ms : ℕ) (b : CircuitBreaker)
    → b.probe_in_flight ≡ false
    → (allow t1 t2 b).1 ≡ refused ms
    → (allow t1 t2 b).0.probe_in_flight ≡ false
unfolding allow allow_in effective_state
refused_frees t1 t2 ms b h p = ground arith

refused_shut :
    (t1 t2 ms : ℕ) (b : CircuitBreaker)
    → (allow t1 t2 b).1 ≡ refused ms
    → is_closed (allow t1 t2 b).0.state ≡ false
unfolding allow allow_in effective_state
refused_shut t1 t2 ms b h = elim (Bool-cases (is_closed (effective_state t1 b).state)) [
  | inl y ↦ absurd (let wrong : allowed ≡ refused ms = (rw y at h) in cc)
  | inr n ↦ ground arith
]

-- Why a message fails, by the breaker that it leaves: the breaker refused and is not closed, or the
-- model raised on a prompt.
abbrev pub Cause : Provider → CircuitBreaker → Raised → Type 0
Cause p b e =
    ((ms : ℕ) × (is_closed b.state ≡ false) × (e ≡ plain (circuit_open ms)))
    ⊎ ((content : Text) × (p.create p.routed_model content ≡ raised e))

-- The answer is from the model's reply to the last prompt: as it is, stripped, or the fallback text in
-- place of one that is blank.
abbrev pub Origin : Provider → List Text → Text → Type 0
Origin p prompts answer =
    (earlier : List Text) × (content : Text) × (step : ChatStep) × (prompts
      ≡ earlier ++ content ∷ [])
    × (p.create p.routed_model content ≡ returned step)
    × ((answer ≡ step.answer)
        ⊎ ((answer ≡ strip step.answer)
            ⊎ ((is_empty (strip step.answer) ≡ true) × (answer ≡ fallback_answer))))

abbrev pub Lands : Provider → CircuitBreaker → List Text → Attempt Text → Type 0
Lands p b prompts (returned answer) = (is_empty answer ≡ false) × Origin p prompts answer
Lands p b prompts (raised e) = Cause p b e

-- A prompt before the others leaves where the answer is from.
pub later-Lands :
    (p : Provider) (b : CircuitBreaker) (first : Text) (prompts : List Text) (a : Attempt Text)
    → Lands p b prompts a
    → Lands p b (first ∷ prompts) a
later-Lands p b first prompts (raised e) h = h
later-Lands p b first prompts (returned answer) (said, (earlier, content, step, at, reply, rest)) =
    (said, (first ∷ earlier, content, step, ap (λ t. first ∷ t) at, reply, rest))

module _ (p : Provider) (session_id : String) (parts : PromptParts) where
  -- What a call sent, and what it answered: the model's answer to that prompt, or a refusal.
  abbrev pub Asked : CircuitBreaker → List Text → Attempt ChatStep → Type 0
  Asked b prompts (returned step) =
      (content : Text) × (prompts ≡ content ∷ [])
      × (p.create p.routed_model content ≡ returned step)
  Asked b prompts (raised e) =
      ((ms : ℕ) × (prompts ≡ []) × (is_closed b.state ≡ false) × (e ≡ plain (circuit_open ms)))
      ⊎ ((content : Text) × (prompts ≡ content ∷ []) × (p.create p.routed_model content ≡ raised e))

  abbrev pub CallOk : Run → Run × Attempt ChatStep → Type 0
  CallOk r out =
      (g : Grown p.registry session_id 1 r out.0) × (g.rows ≡ [])
      × Asked out.0.breaker g.prompts out.1

  pub reason_for :
      (b : CircuitBreaker) (prompts : List Text) (e : Raised)
      → Asked b prompts (raised e)
      → Cause p b e
  reason_for b prompts e (inl (ms, sent, shut, h)) = inl (ms, shut, h)
  reason_for b prompts e (inr (content, sent, h)) = inr (content, h)

  -- A call that sent one prompt and wrote no row, by the breaker that it leaves.
  one_call :
      (content : Text) (r : Run) (b : CircuitBreaker)
      → (r.breaker.probe_in_flight ≡ false → b.probe_in_flight ≡ false)
      → GrownBy p.registry session_id 1 r
          (record r { breaker = b; sent = r.sent ++ content ∷ [] })
          (content ∷ [])
          []
  one_call content r b frees = (
    record {
      prompts = content ∷ [];
      sent = refl;
      bounded = omega arith;
      rows = [];
      audited = sym (append-nil r.invocations);
      genuine = tt;
      earned = sym (append-nil _);
      slot_free = frees;
    },
    refl,
    refl,
  )

  after_create-ok :
      (c : Readings) (content : Text) (r : Run) (b : CircuitBreaker) (a : Attempt ChatStep)
      → p.create p.routed_model content ≡ a
      → (r.breaker.probe_in_flight ≡ false → b.probe_in_flight ≡ true → b.state ≡ half_open)
      → CallOk r (
          after_create p session_id parts c
            (record r { breaker = b; sent = r.sent ++ content ∷ [] })
            a)
  unfolding record_success
  after_create-ok c content r b (returned step) asked probing =
      let (g, sent, rows) = one_call content r (record_success b) (λ f. refl) in
      (g, rows, (content, sent, asked))
  after_create-ok c content r b (raised e) asked probing =
      let frees : r.breaker.probe_in_flight ≡ false
          → (if counts_as_provider_down e
              then record_failure c.failure.0 c.failure.1 b
              else record_success b).probe_in_flight
            ≡ false =
        λ f. elim (Bool-cases (counts_as_provider_down e)) [
          | inl y ↦ rw y (failure_frees c.failure.0 c.failure.1 b (probing f))
          | inr n ↦ rw n refl
        ] in
      let (g, sent, rows) = one_call content r _ frees in (g, rows, inr (content, sent, asked))

  gated-ok :
      (c : Readings) (content : Text) (r : Run) (g : CircuitBreaker × Answer)
      → (r.breaker.probe_in_flight ≡ false → g.0.probe_in_flight ≡ true → g.0.state ≡ half_open)
      → ((ms : ℕ)
          → r.breaker.probe_in_flight ≡ false
          → g.1 ≡ refused ms
          → g.0.probe_in_flight ≡ false)
      → ((ms : ℕ) → g.1 ≡ refused ms → is_closed g.0.state ≡ false)
      → CallOk r (gated p session_id parts c content r g)
  gated-ok c content r (b, allowed) probing free shut =
      after_create-ok c content r b (p.create p.routed_model content) refl probing
  gated-ok c content r (b, refused ms) probing free shut = (
    record {
      prompts = [];
      sent = sym (append-nil r.sent);
      bounded = omega arith;
      rows = [];
      audited = sym (append-nil r.invocations);
      genuine = tt;
      earned = sym (append-nil _);
      slot_free = λ f. free ms f refl;
    },
    refl,
    inl (ms, refl, shut ms refl, refl),
  )

  pub call-ok :
      (with_catalog forced : Bool) (c : Readings) (r : Run)
      → CallOk r (call p session_id parts with_catalog forced c r)
  unfolding call
  call-ok with_catalog forced c r =
      gated-ok c (content_of p session_id parts with_catalog forced r.observations) r
        (allow c.gate.0 c.gate.1 r.breaker) (allowed_probes c.gate.0 c.gate.1 r.breaker)
        (λ ms. refused_frees c.gate.0 c.gate.1 ms r.breaker)
        (λ ms. refused_shut c.gate.0 c.gate.1 ms r.breaker)
