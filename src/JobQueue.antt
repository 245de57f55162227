-- ===== src/JobQueue.antt =====
-- narration-enrichment/src/narration_enrichment/job_queue.py: `InMemoryJobQueue`. The lock makes a
-- method one step. `draw i` is the receipt (uuid4) and the clock reading of the i-th delivery of a
-- `receive`. The dict of deliveries is an association list, in the order of insertion.
pub mod Conservation
mod Examples
use gen_ai_backend.Prelude.{
  ℕ, zero, suc, ◌+◌, ◌-◌, String, str_eq, List, [], ◌∷◌, ◌++◌, length, leb, if◌then◌else◌,
}

pub record QueueMessage : Type 0 where
  pub job_id : String
  pub receipt : String

-- receipt, job_id, invisible_until
pub record Delivery : Type 0 where
  pub receipt : String
  pub job_id : String
  pub until : ℕ

pub record JobQueue : Type 0 where
  pub visible : List String
  pub in_flight : List Delivery
  pub visibility_timeout : ℕ

unfoldable pub new : ℕ → JobQueue
new visibility_timeout = record {
  visible = [];
  in_flight = [];
  visibility_timeout = visibility_timeout;
}

abbrev pub expired_ids : ℕ → List Delivery → List String
expired_ids now [] = []
expired_ids now (d ∷ ds) =
    let rest = expired_ids now ds in if leb d.until now then d.job_id ∷ rest else rest

abbrev pub live_deliveries : ℕ → List Delivery → List Delivery
live_deliveries now [] = []
live_deliveries now (d ∷ ds) =
    let rest = live_deliveries now ds in if leb d.until now then rest else d ∷ rest

-- `_requeue_expired`
unfoldable pub requeue_expired : ℕ → JobQueue → JobQueue
requeue_expired now q = record q {
  visible = q.visible ++ expired_ids now q.in_flight;
  in_flight = live_deliveries now q.in_flight;
}

unfoldable pub send : String → JobQueue → JobQueue
send job_id q = record q { visible = q.visible ++ job_id ∷ [] }

-- `self._in_flight[receipt] = …`
abbrev pub set_delivery : Delivery → List Delivery → List Delivery
set_delivery new [] = new ∷ []
set_delivery new (d ∷ ds) =
    if str_eq d.receipt new.receipt then new ∷ ds else d ∷ set_delivery new ds

-- The loop of `receive`: `n` is `max_messages - len(out)`, `i` the number of draws made.
unfoldable pub receive_loop :
    ℕ
    → ℕ
    → (ℕ → String × ℕ)
    → ℕ
    → List String
    → List Delivery
    → List String × List Delivery × List QueueMessage
receive_loop zero i draw timeout visible in_flight = (visible, in_flight, [])
receive_loop (suc n) i draw timeout [] in_flight = ([], in_flight, [])
receive_loop (suc n) i draw timeout (job_id ∷ visible) in_flight =
    let (receipt, now) = draw i in
    let d : Delivery = record { receipt = receipt; job_id = job_id; until = now + timeout } in
    let (v, f, out) = receive_loop n (suc i) draw timeout visible (set_delivery d in_flight) in
    let m : QueueMessage = record { job_id = job_id; receipt = receipt } in (v, f, m ∷ out)

unfoldable pub receive : ℕ → (ℕ → String × ℕ) → ℕ → JobQueue → JobQueue × List QueueMessage
unfolding requeue_expired
receive now draw max_messages q =
    let q' = requeue_expired now q in
    let (v, f, out) =
      receive_loop max_messages 0 draw q'.visibility_timeout q'.visible q'.in_flight in
    (record q' { visible = v; in_flight = f }, out)

abbrev without_receipt : String → List Delivery → List Delivery
without_receipt receipt [] = []
without_receipt receipt (d ∷ ds) =
    let rest = without_receipt receipt ds in if str_eq d.receipt receipt then rest else d ∷ rest

pub delete : QueueMessage → JobQueue → JobQueue
delete m q = record q { in_flight = without_receipt m.receipt q.in_flight }

pub depth : ℕ → JobQueue → JobQueue × ℕ
unfolding requeue_expired
depth now q = let q' = requeue_expired now q in (q', length q'.visible + length q'.in_flight)
