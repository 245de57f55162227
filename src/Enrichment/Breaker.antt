-- ===== src/Enrichment/Breaker.antt =====
-- What a call leaves in the breaker.
use gen_ai_backend.Prelude.{
  ℕ, ◌+◌, ◌<◌, String, ◌≡◌, refl, sym, ◌∙◌, true, false, Bool-cases, inl, inr, Option, none, some,
  arith, leb,
}
use gen_ai_backend.Errors.{
  Raised, plain, circuit_open, Attempt, returned, raised, counts_as_provider_down,
}
use gen_ai_backend.CircuitBreaker.{
  CircuitBreaker, Answer, allowed, closed, opened, half_open, remaining, circuit_open as refused,
  allow, allow_in, effective_state, failure_in, record_success, record_failure,
}
use gen_ai_backend.CircuitBreaker.Invariant.{IsValid}
use gen_ai_backend.Enrichment.{
  Settings, Readings, chain_for, note_failure, last_attempt, fall_back, first_attempt, behind_gate,
  enrich_narration,
}

failure_frees :
    (t1 t2 : ℕ) (b : CircuitBreaker)
    → (b.probe_in_flight ≡ true → b.state ≡ half_open)
    → (record_failure t1 t2 b).probe_in_flight ≡ false
unfolding record_failure effective_state failure_in
failure_frees t1 t2 b h = ground arith

module _ {A : Type 0} (call : String → Attempt A) (clock : Readings) where
  note_frees :
      (t : ℕ × ℕ) (e : Raised) (b : CircuitBreaker)
      → (b.probe_in_flight ≡ true → b.state ≡ half_open)
      → (note_failure call clock t e b).probe_in_flight ≡ false
  unfolding record_success
  note_frees t e b h = elim (Bool-cases (counts_as_provider_down e)) [
    | inl y ↦ rw y (failure_frees t.0 t.1 b h)
    | inr n ↦ rw n refl
  ]

  last_frees :
      (a : Attempt A) (b : CircuitBreaker)
      → b.probe_in_flight ≡ false
      → (last_attempt call clock a b).0.probe_in_flight ≡ false
  unfolding record_success
  last_frees (returned a) b h = refl
  last_frees (raised e) b h =
      note_frees clock.second e b (λ p. absurd (let wrong : true ≡ false = sym p ∙ h in cc))

  fall_back_frees :
      (e : Raised) (fallback : Option String) (b : CircuitBreaker)
      → b.probe_in_flight ≡ false
      → (fall_back call clock e fallback b).0.probe_in_flight ≡ false
  fall_back_frees e none b h = h
  fall_back_frees e (some model) b h = elim (Bool-cases (counts_as_provider_down e)) [
    | inl y ↦ rw y (last_frees (call model) b h)
    | inr n ↦ rw n h
  ]

  first_frees :
      (a : Attempt A) (fallback : Option String) (b : CircuitBreaker)
      → (b.probe_in_flight ≡ true → b.state ≡ half_open)
      → (first_attempt call clock a fallback b).0.probe_in_flight ≡ false
  unfolding record_success
  first_frees (returned a) fallback b h = refl
  first_frees (raised e) fallback b h =
      fall_back_frees e fallback (note_failure call clock clock.first e b)
        (note_frees clock.first e b h)

  gate_keeps :
      (t1 t2 : ℕ) (b : CircuitBreaker)
      → (b.probe_in_flight ≡ true → b.state ≡ half_open)
      → (allow t1 t2 b).0.probe_in_flight ≡ true
      → (allow t1 t2 b).0.state ≡ half_open
  unfolding allow allow_in effective_state
  gate_keeps t1 t2 b h p = ground arith

  behind_frees :
      (chain : String × Option String) (g : CircuitBreaker × Answer)
      → (g.0.probe_in_flight ≡ true → g.0.state ≡ half_open)
      → g.1 ≡ allowed
      → (behind_gate call clock chain g).0.probe_in_flight ≡ false
  behind_frees chain (b, allowed) h e = first_frees (call chain.0) chain.1 b h
  behind_frees chain (b, refused n) h e = cc

  -- A call that a valid breaker lets through leaves no probe in flight, whatever the model and the
  -- fallback answer: the slot of a probe is always returned.
  pub probe_returned :
      (s : Settings) (b : CircuitBreaker)
      → IsValid b
      → (allow clock.gate.0 clock.gate.1 b).1 ≡ allowed
      → (enrich_narration call clock s b).0.probe_in_flight ≡ false
  unfolding enrich_narration
  probe_returned s b h e =
      behind_frees (chain_for s) (allow clock.gate.0 clock.gate.1 b)
        (gate_keeps clock.gate.0 clock.gate.1 b h.probing) e

abbrev pub Closes : {A : Type 0} → CircuitBreaker × Attempt A → Type 0
Closes r = (r.0.state ≡ closed) × (r.0.consecutive_failures ≡ 0) × (r.0.probe_in_flight ≡ false)

module _ {A : Type 0} (call : String → Attempt A) (clock : Readings) where
  last-Closes :
      (x : Attempt A) (b : CircuitBreaker) (a : A)
      → (last_attempt call clock x b).1 ≡ returned a
      → Closes (last_attempt call clock x b)
  unfolding record_success
  last-Closes (returned x) b a h = (refl, refl, refl)
  last-Closes (raised e) b a h = cc

  first-Closes :
      (x : Attempt A) (fallback : Option String) (b : CircuitBreaker) (a : A)
      → (first_attempt call clock x fallback b).1 ≡ returned a
      → Closes (first_attempt call clock x fallback b)
  unfolding record_success
  first-Closes (returned x) fallback b a h = (refl, refl, refl)
  first-Closes (raised e) none b a h = cc
  first-Closes (raised e) (some model) b a h = elim (Bool-cases (counts_as_provider_down e)) [
    | inl y ↦
        rw y (last-Closes (call model) (record_failure clock.first.0 clock.first.1 b) a (rw y at h))
    | inr n ↦ absurd (let wrong : raised e ≡ returned a = rw n at h in cc)
  ]

  behind-Closes :
      (chain : String × Option String) (g : CircuitBreaker × Answer) (a : A)
      → (behind_gate call clock chain g).1 ≡ returned a
      → Closes (behind_gate call clock chain g)
  behind-Closes chain (b, allowed) a h = first-Closes (call chain.0) chain.1 b a h
  behind-Closes chain (b, refused n) a h = cc

  -- A call that answers, with the primary model or with the fallback, leaves the breaker closed with
  -- no failure counted.
  pub answer-Closes :
      (s : Settings) (b : CircuitBreaker) (a : A)
      → (enrich_narration call clock s b).1 ≡ returned a
      → Closes (enrich_narration call clock s b)
  unfolding enrich_narration
  answer-Closes s b a h = behind-Closes (chain_for s) (allow clock.gate.0 clock.gate.1 b) a h

still_open :
    (t1 t2 : ℕ) (b : CircuitBreaker)
    → b.state ≡ opened
    → t1 < b.cooldown + b.opened_at
    → (r : ℕ) × (allow t1 t2 b ≡ (b, refused r))
unfolding allow allow_in effective_state
still_open t1 t2 b o early =
    let kept : leb (b.cooldown + b.opened_at) t1 ≡ false = ground arith in
    (remaining t2 b, rw (o, kept) refl)

-- While the breaker is open and its cooldown has not passed, no model is asked, the fallback included:
-- the answer is the same CircuitOpenError for every model.
pub open_asks_no_one :
    {A : Type 0} (call call' : String → Attempt A) (clock : Readings) (s s' : Settings)
    (b : CircuitBreaker)
    → b.state ≡ opened
    → clock.gate.0 < b.cooldown + b.opened_at
    → (enrich_narration call clock s b ≡ enrich_narration call' clock s' b)
      × ((retry : ℕ) × ((enrich_narration call clock s b).1 ≡ raised (plain (circuit_open retry))))
unfolding enrich_narration
open_asks_no_one call call' clock s s' b o early =
    let stuck : (r : ℕ) × (allow clock.gate.0 clock.gate.1 b ≡ (b, refused r)) =
      still_open clock.gate.0 clock.gate.1 b o early in
    rw (stuck.1) (refl, (stuck.0, refl))
