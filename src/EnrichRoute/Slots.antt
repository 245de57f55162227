-- ===== src/EnrichRoute/Slots.antt =====
-- Each path out of the route returns its slot.
use gen_ai_backend.Prelude.{
  ◌+◌, String, str_eq, ◌≡◌, refl, ap, ◌∙◌, true, Bool-cases, inl, inr, Option, none, some, arith,
  leb,
}
use gen_ai_backend.Prelude.Text.{Text}
use gen_ai_backend.Errors.{Attempt, returned, raised}
use gen_ai_backend.LoadShed.{InFlightLimiter, acquire_slot, release_slot}
use gen_ai_backend.EnrichRoute.{
  IdempotencyKey, Server, EnrichRequest, http, key_of, lookup, replay_or, store_answer, guarded,
  begin, complete, finish_from, enrich,
}

slot_back : (l : InFlightLimiter) → release_slot (record l { in_flight = l.in_flight + 1 }) ≡ l
unfolding release_slot
slot_back l = ground arith

module _ {A : Type 0} (sha256 : Text → String) (r : EnrichRequest) (inner : Attempt A) where
  store_keeps_shed :
      (a : A) (s : Server A) (k : Option String) → (store_answer sha256 r a s k).0.shed ≡ s.shed
  store_keeps_shed a s none = refl
  store_keeps_shed a s (some k) = refl

  guarded_keeps_shed :
      (answer : Attempt A) (s : Server A) → (guarded sha256 r answer s).0.shed ≡ s.shed
  guarded_keeps_shed (raised e) s = refl
  guarded_keeps_shed (returned a) s = store_keeps_shed a s (key_of r.idempotency_key)

  shed_after :
      (s : Server A) (o : Option (IdempotencyKey A))
      → (finish_from sha256 r inner (replay_or sha256 r s o)).0.shed ≡ s.shed
  unfolding acquire_slot complete
  shed_after s (some stored) = elim (Bool-cases (str_eq stored.request_hash (sha256 r.narration))) [
    | inl y ↦ rw y refl
    | inr n ↦ rw n refl
  ]
  shed_after s none = elim (Bool-cases (leb s.shed.max s.shed.in_flight)) [
    | inl y ↦ rw y refl
    | inr n ↦
        let held : Server A = record s {
          shed = record s.shed { in_flight = s.shed.in_flight + 1 };
        } in
        rw n (ap release_slot (guarded_keeps_shed inner held) ∙ slot_back s.shed)
  ]

  -- A request returns its slot on every path, whether it replays, is refused, is shed, succeeds or
  -- fails in any way: the limiter is as it was.
  pub slot_returned : (s : Server A) → (enrich sha256 r inner s).0.shed ≡ s.shed
  unfolding enrich begin
  slot_returned s = shed_after s (lookup (key_of r.idempotency_key) s.keys)

  -- Where every slot is taken, a request that has no stored answer is shed with a 503 whatever the
  -- work would answer, and changes nothing.
  pub full_sheds :
      (s : Server A)
      → lookup (key_of r.idempotency_key) s.keys ≡ none
      → leb s.shed.max s.shed.in_flight ≡ true
      → enrich sha256 r inner s ≡ (s, http 503 (some 1))
  unfolding enrich begin acquire_slot
  full_sheds s unknown full = rw (unknown, full) refl
