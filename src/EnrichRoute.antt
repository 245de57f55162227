-- ===== src/EnrichRoute.antt =====
-- narration-enrichment/src/narration_enrichment/main.py: the routes `enrich` and `enrich_batch`, with
-- the table `idempotency_keys` of db.py. What `_enrich_and_persist` answers is an argument. A request
-- is two steps, up to the slot and from the answer on, so that requests can interleave. A stored
-- response is the value that its JSON stands for.
pub mod Slots
pub mod Replays
pub mod Batch
mod Examples
use Prim.Native.Nat.{◌/◌}
use gen_ai_backend.Prelude.{
  ℕ, ◌+◌, ◌-◌, String, str_eq, Bool, true, false, Option, none, some, List, [], ◌∷◌, ◌++◌, length,
  if◌then◌else◌,
}
use gen_ai_backend.Prelude.Text.{Text}
use gen_ai_backend.Errors.{
  Kind, timeout, api_error, instructor_retry, circuit_open, rate_limited, index_error, value_error,
  integrity_error, other, Raised, Attempt, returned, raised, is_transient_api, on_cause,
}
use gen_ai_backend.LoadShed.{InFlightLimiter, acquire_slot, release_slot}

pub record IdempotencyKey (A : Type 0) : Type 0 where
  pub key : String
  pub request_hash : String
  pub response : A

pub record Server (A : Type 0) : Type 0 where
  pub shed : InFlightLimiter
  pub keys : List (IdempotencyKey A)

pub record EnrichRequest : Type 0 where
  pub narration : Text
  pub idempotency_key : Option String

-- A 200, with the header of a replay, or an HTTPException with its status and Retry-After.
pub data Reply (A : Type 0) : Type 0 where
  ok : Bool → A → Reply A
  http : ℕ → Option ℕ → Reply A

-- `str(int(exc.retry_after_seconds) + 1)`, of milliseconds.
abbrev retry_header : ℕ → ℕ
retry_header ms = ms / 1000 + 1

-- The handlers of `enrich`, in their order.
pub error_reply : {A : Type 0} → Raised → Reply A
error_reply e = elim e.kind [
  | rate_limited ms ↦ http 429 (some (retry_header ms))
  | circuit_open ms ↦ http 503 (some (retry_header ms))
  | instructor_retry ↦ if on_cause is_transient_api e.cause then http 503 none else http 422 none
  | timeout ↦ http 504 none
  | api_error c ↦ http 503 none
  | index_error ↦ http 500 none
  | value_error ↦ http 500 none
  | integrity_error ↦ http 500 none
  | other ↦ http 500 none
]

module _ {A : Type 0} where
  abbrev pub get_idempotency_record : String → List (IdempotencyKey A) → Option (IdempotencyKey A)
  get_idempotency_record k [] = none
  get_idempotency_record k (r ∷ rs) = if str_eq r.key k then some r else get_idempotency_record k rs

  abbrev pub store_in :
      IdempotencyKey A
      → List (IdempotencyKey A)
      → Option (IdempotencyKey A)
      → List (IdempotencyKey A) × IdempotencyKey A
  store_in row rows none = (rows ++ row ∷ [], row)
  store_in row rows (some winner) = (rows, winner)

  -- The insert, or the row that won the race for the key.
  unfoldable pub store_idempotency_record :
      IdempotencyKey A → List (IdempotencyKey A) → List (IdempotencyKey A) × IdempotencyKey A
  store_idempotency_record row rows = store_in row rows (get_idempotency_record row.key rows)

-- `if idempotency_key`
abbrev pub key_of : Option String → Option String
key_of none = none
key_of (some k) = if str_eq k "" then none else some k

module _ {A : Type 0} where
  abbrev pub lookup : Option String → List (IdempotencyKey A) → Option (IdempotencyKey A)
  lookup none rows = none
  lookup (some k) rows = get_idempotency_record k rows

-- What a request comes to before the guarded section.
pub data Gate (A : Type 0) : Type 0 where
  answered : Reply A → Gate A
  admitted : Gate A

module _ {A : Type 0} (sha256 : Text → String) where
  abbrev pub take_slot : Server A → Option InFlightLimiter → Server A × Gate A
  take_slot s none = (s, answered (http 503 (some 1)))
  take_slot s (some shed) = (record s { shed = shed }, admitted)

  abbrev pub replay_or : EnrichRequest → Server A → Option (IdempotencyKey A) → Server A × Gate A
  replay_or r s (some stored) =
      if str_eq stored.request_hash (sha256 r.narration)
      then (s, answered (ok true stored.response))
      else (s, answered (http 422 none))
  replay_or r s none = take_slot s (acquire_slot s.shed)

  unfoldable pub begin : EnrichRequest → Server A → Server A × Gate A
  begin r s = replay_or r s (lookup (key_of r.idempotency_key) s.keys)

  abbrev pub store_answer : EnrichRequest → A → Server A → Option String → Server A × Reply A
  store_answer r a s none = (s, ok false a)
  store_answer r a s (some k) =
      let (keys, winner) =
        store_idempotency_record
          (record { key = k; request_hash = sha256 r.narration; response = a }) s.keys in
      (record s { keys = keys }, ok false winner.response)

  abbrev pub guarded : EnrichRequest → Attempt A → Server A → Server A × Reply A
  guarded r (raised e) s = (s, error_reply e)
  guarded r (returned a) s = store_answer r a s (key_of r.idempotency_key)

  -- From the answer of `_enrich_and_persist` to the `finally`.
  unfoldable pub complete : EnrichRequest → Attempt A → Server A → Server A × Reply A
  complete r inner s =
      let (s', reply) = guarded r inner s in (record s' { shed = release_slot s'.shed }, reply)

  abbrev pub finish_from : EnrichRequest → Attempt A → Server A × Gate A → Server A × Reply A
  finish_from r inner (s, answered reply) = (s, reply)
  finish_from r inner (s, admitted) = complete r inner s

  -- A request that no other interleaves with.
  unfoldable pub enrich : EnrichRequest → Attempt A → Server A → Server A × Reply A
  enrich r inner s = finish_from r inner (begin r s)

-- `BatchItemResult`: a success with its value or a failure with the class of its exception.
pub record BatchItemResult (A : Type 0) : Type 0 where
  pub index : ℕ
  pub narration : Text
  pub item : Attempt A

pub record BatchEnrichResponse (A : Type 0) : Type 0 where
  pub total : ℕ
  pub succeeded : ℕ
  pub failed : ℕ
  pub results : List (BatchItemResult A)

module _ {A : Type 0} where
  abbrev pub count_succeeded : List (BatchItemResult A) → ℕ
  count_succeeded [] = 0
  count_succeeded (r ∷ rs) = elim r.item [
    | returned a ↦ count_succeeded rs + 1
    | raised e ↦ count_succeeded rs
  ]

  abbrev pub batch_items : ℕ → List (Text × Attempt A) → List (BatchItemResult A)
  batch_items i [] = []
  batch_items i ((narration, item) ∷ rest) =
      record { index = i; narration = narration; item = item } ∷ batch_items (i + 1) rest

  -- Each narration with what `_enrich_and_persist` answers to it.
  unfoldable pub enrich_batch_inner : List (Text × Attempt A) → BatchEnrichResponse A
  enrich_batch_inner items =
      let results = batch_items 0 items in
      record {
        total = length results;
        succeeded = count_succeeded results;
        failed = length results - count_succeeded results;
        results = results;
      }

  abbrev pub batch_from :
      List (Text × Attempt A)
      → Server A
      → Option InFlightLimiter
      → Server A × Option (BatchEnrichResponse A)
  batch_from items s none = (s, none)
  batch_from items s (some shed) =
      (record s { shed = release_slot shed }, some (enrich_batch_inner items))

  -- One slot for the whole batch; `none` is the 503 of a shed.
  unfoldable pub enrich_batch :
      List (Text × Attempt A) → Server A → Server A × Option (BatchEnrichResponse A)
  enrich_batch items s = batch_from items s (acquire_slot s.shed)
