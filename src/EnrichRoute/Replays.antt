-- ===== src/EnrichRoute/Replays.antt =====
-- One key, one answer, and the race that the hash does not guard.
use gen_ai_backend.Prelude.{
  String, str_eq, eq_iff, ◌≡◌, refl, ap, true, false, Bool-cases, inl, inr, Option-cases, none,
  some, List, [], ◌∷◌, ◌++◌, arith, if◌then◌else◌,
}
use gen_ai_backend.Prelude.Text.{Text}
use gen_ai_backend.Errors.{Attempt, returned}
use gen_ai_backend.EnrichRoute.{
  IdempotencyKey, Server, EnrichRequest, ok, http, answered, store_idempotency_record,
  get_idempotency_record, begin, complete, finish_from, enrich,
}

module _ {A : Type 0} where
  found_snoc :
      (row : IdempotencyKey A) (rows : List (IdempotencyKey A))
      → get_idempotency_record row.key rows ≡ none
      → get_idempotency_record row.key (rows ++ row ∷ []) ≡ some row
  found_snoc row [] h = rw ((eq_iff row.key row.key).1 refl) refl
  found_snoc row (x ∷ xs) h = ground (arith, found_snoc row xs)

  -- After a store, the row that it answers is the one that is found.
  stored_found :
      (row : IdempotencyKey A) (rows : List (IdempotencyKey A))
      → let (rows', winner) = store_idempotency_record row rows in
        get_idempotency_record row.key rows' ≡ some winner
  unfolding store_idempotency_record
  stored_found row rows = elim (Option-cases (get_idempotency_record row.key rows)) [
    | inl h ↦ rw h (found_snoc row rows h)
    | inr (w, h) ↦ rw h h
  ]

module _ {A : Type 0} (sha256 : Text → String) (k : String) (named : str_eq k "" ≡ false) where
  -- The reply and the stored row of a success under a key that no row has.
  first_success :
      (r : EnrichRequest) (a : A) (s : Server A)
      → r.idempotency_key ≡ some k
      → get_idempotency_record k s.keys ≡ none
      → ((complete sha256 r (returned a) s).1 ≡ ok false a)
        × (get_idempotency_record k (complete sha256 r (returned a) s).0.keys
            ≡ some (record { key = k; request_hash = sha256 r.narration; response = a }))
  unfolding complete store_idempotency_record
  first_success r a s key free =
      rw (key, named, free)
        (
          refl,
          found_snoc (record { key = k; request_hash = sha256 r.narration; response = a }) s.keys
              free,
        )

  later_success :
      (r : EnrichRequest) (a : A) (s : Server A) (w : IdempotencyKey A)
      → r.idempotency_key ≡ some k
      → get_idempotency_record k s.keys ≡ some w
      → ((complete sha256 r (returned a) s).1 ≡ ok false w.response)
        × (get_idempotency_record k (complete sha256 r (returned a) s).0.keys ≡ some w)
  unfolding complete store_idempotency_record
  later_success r a s w key held = rw (key, named, held) (refl, held)

  replayed :
      (r : EnrichRequest) (s : Server A) (w : IdempotencyKey A)
      → r.idempotency_key ≡ some k
      → get_idempotency_record k s.keys ≡ some w
      → begin sha256 r s ≡ (
        s,
        answered (
            if str_eq w.request_hash (sha256 r.narration)
            then ok true w.response
            else http 422 none),
      )
  unfolding begin
  replayed r s w key held = elim (Bool-cases (str_eq w.request_hash (sha256 r.narration))) [
    | inl y ↦ rw (key, named, held, y) refl
    | inr n ↦ rw (key, named, held, n) refl
  ]

-- Two requests under one key that are both past the replay test, in a table without the key, whose
-- work succeeds with `a` and with `b`, in this order: both are answered `a`, and a third request
-- under the key is answered without work, with `a` for the first request's body and with a 422 for
-- a body of another digest.
pub one_canonical_answer :
    {A : Type 0} (sha256 : Text → String) (k : String) (first second third : EnrichRequest)
    (a b : A) (inner : Attempt A) (s : Server A)
    → str_eq k "" ≡ false
    → first.idempotency_key ≡ some k
    → second.idempotency_key ≡ some k
    → third.idempotency_key ≡ some k
    → get_idempotency_record k s.keys ≡ none
    → let (s1, reply1) = complete sha256 first (returned a) s in
      let (s2, reply2) = complete sha256 second (returned b) s1 in
      (reply1 ≡ ok false a)
      × (reply2 ≡ ok false a)
      × (enrich sha256 third inner s2 ≡ (
        s2,
        if str_eq (sha256 first.narration) (sha256 third.narration)
            then ok true a
            else http 422 none,
      ))
unfolding enrich
one_canonical_answer {A} sha256 k first second third a b inner s named k1 k2 k3 free =
    let (reply1, held1) = first_success sha256 k named first a s k1 free in
    let s1 = (complete sha256 first (returned a) s).0 in
    let row : IdempotencyKey A = record {
      key = k;
      request_hash = sha256 first.narration;
      response = a;
    } in
    let (reply2, held2) = later_success sha256 k named second b s1 row k2 held1 in
    let s2 = (complete sha256 second (returned b) s1).0 in
    (
      reply1,
      reply2,
      ap (finish_from sha256 third inner) (replayed sha256 k named third s2 row k3 held2),
    )
