-- ===== src/JobQueue/Conservation.antt =====
-- No operation loses a message but the acknowledgement of its delivery.
use gen_ai_backend.Prelude.{
  ℕ, zero, suc, ◌+◌, ◌≤◌, String, str_eq, ◌≡◌, refl, ◌∙◌, ◌≢◌, Bool, true, false, ◌||◌, ◌&&◌, List,
  [], ◌∷◌, ◌++◌, leb, arith, if◌then◌else◌,
}
use gen_ai_backend.JobQueue.{
  Delivery, JobQueue, expired_ids, live_deliveries, requeue_expired, send, set_delivery,
  receive_loop, receive, depth,
}

abbrev pub count_visible : String → List String → ℕ
count_visible id [] = 0
count_visible id (x ∷ xs) = (if str_eq x id then 1 else 0) + count_visible id xs

abbrev count_in_flight : String → List Delivery → ℕ
count_in_flight id [] = 0
count_in_flight id (d ∷ ds) = (if str_eq d.job_id id then 1 else 0) + count_in_flight id ds

-- The messages for a job that are not acknowledged.
abbrev pub pending : String → JobQueue → ℕ
pending id q = count_visible id q.visible + count_in_flight id q.in_flight

abbrev has_receipt : String → List Delivery → Bool
has_receipt r [] = false
has_receipt r (d ∷ ds) = str_eq d.receipt r || has_receipt r ds

count_visible-append :
    (id : String) (xs ys : List String)
    → count_visible id (xs ++ ys) ≡ count_visible id xs + count_visible id ys
count_visible-append id [] ys = omega arith
count_visible-append id (x ∷ xs) ys = ground (arith, count_visible-append id xs ys)

count_expired :
    (id : String) (now : ℕ) (ds : List Delivery)
    → count_visible id (expired_ids now ds) + count_in_flight id (live_deliveries now ds)
      ≡ count_in_flight id ds
count_expired id now [] = refl
count_expired id now (d ∷ ds) = ground (arith, count_expired id now ds)

requeue_expired-pending :
    (id : String) (now : ℕ) (q : JobQueue) → pending id (requeue_expired now q) ≡ pending id q
unfolding requeue_expired
requeue_expired-pending id now q = omega (
  arith,
  count_visible-append id q.visible (expired_ids now q.in_flight),
  count_expired id now q.in_flight,
)

count_set_delivery :
    (id : String) (new : Delivery) (ds : List Delivery)
    → has_receipt new.receipt ds ≡ false
    → count_in_flight id (set_delivery new ds)
      ≡ (if str_eq new.job_id id then 1 else 0) + count_in_flight id ds
count_set_delivery id new [] h = refl
count_set_delivery id new (d ∷ ds) h = ground (arith, count_set_delivery id new ds)

has_receipt-set_delivery :
    (r : String) (new : Delivery) (ds : List Delivery)
    → has_receipt r ds ≡ false
    → str_eq new.receipt r ≡ false
    → has_receipt r (set_delivery new ds) ≡ false
has_receipt-set_delivery r new [] h n = ground arith
has_receipt-set_delivery r new (d ∷ ds) h n = ground (arith, has_receipt-set_delivery r new ds)

-- uuid4 draws no receipt twice, and none that is in flight.
pub record FreshReceipts (draw : ℕ → String × ℕ) (ds : List Delivery) : Type 0 where
  pub distinct : (i j : ℕ) → i ≢ j → str_eq (draw i).0 (draw j).0 ≡ false
  pub unused : (i : ℕ) → has_receipt (draw i).0 ds ≡ false

module _ (draw : ℕ → String × ℕ)
    (distinct : (i j : ℕ) → i ≢ j → str_eq (draw i).0 (draw j).0 ≡ false) where
  receive_loop-pending :
      (id : String) (n i timeout : ℕ) (visible : List String) (in_flight : List Delivery)
      → ((k : ℕ) → i ≤ k → has_receipt (draw k).0 in_flight ≡ false)
      → let (v, f, out) = receive_loop n i draw timeout visible in_flight in
        count_visible id v + count_in_flight id f
        ≡ count_visible id visible + count_in_flight id in_flight
  unfolding receive_loop
  receive_loop-pending id zero i timeout visible in_flight fresh = refl
  receive_loop-pending id (suc n) i timeout [] in_flight fresh = refl
  receive_loop-pending id (suc n) i timeout (x ∷ xs) in_flight fresh =
      let d : Delivery = record {
        receipt = (draw i).0;
        job_id = x;
        until = (draw i).1 + timeout;
      } in
      omega (
        arith,
        count_set_delivery id d in_flight (fresh i (omega arith)),
        receive_loop-pending id n (suc i) timeout xs (set_delivery d in_flight) (λ k l.
            has_receipt-set_delivery (draw k).0 d in_flight (fresh k (omega arith))
              (distinct i k (λ e. omega arith))),
      )

has_receipt-live :
    (r : String) (now : ℕ) (ds : List Delivery)
    → has_receipt r ds ≡ false
    → has_receipt r (live_deliveries now ds) ≡ false
has_receipt-live r now [] h = refl
has_receipt-live r now (d ∷ ds) h = ground (arith, has_receipt-live r now ds)

-- With fresh receipts, a `receive` leaves for every job as many unacknowledged messages, visible and
-- in flight together, as there were.
pub receive-pending :
    (id : String) (now : ℕ) (draw : ℕ → String × ℕ) (max_messages : ℕ) (q : JobQueue)
    → FreshReceipts draw q.in_flight
    → pending id (receive now draw max_messages q).0 ≡ pending id q
unfolding receive requeue_expired
receive-pending id now draw max_messages q fresh =
    receive_loop-pending draw fresh.distinct id max_messages 0 q.visibility_timeout
      (requeue_expired now q).visible (requeue_expired now q).in_flight
      (λ k l. has_receipt-live (draw k).0 now q.in_flight (fresh.unused k))
    ∙ requeue_expired-pending id now q

send-pending :
    (id job_id : String) (q : JobQueue)
    → pending id (send job_id q) ≡ (if str_eq job_id id then 1 else 0) + pending id q
unfolding send
send-pending id job_id q = omega (arith, count_visible-append id q.visible (job_id ∷ []))

abbrev all_expired : ℕ → List Delivery → Bool
all_expired now [] = true
all_expired now (d ∷ ds) = leb d.until now && all_expired now ds

live_none : (now : ℕ) (ds : List Delivery) → all_expired now ds ≡ true → live_deliveries now ds ≡ []
live_none now [] h = refl
live_none now (d ∷ ds) h = ground (arith, live_none now ds)

requeue_all :
    (id : String) (later : ℕ) (q : JobQueue)
    → all_expired later q.in_flight ≡ true
    → (count_visible id (requeue_expired later q).visible ≡ pending id q)
      × ((requeue_expired later q).in_flight ≡ [])
unfolding requeue_expired
requeue_all id later q gone =
    let none_live = live_none later q.in_flight gone in
    let same : count_visible id (expired_ids later q.in_flight)
          + count_in_flight id (live_deliveries later q.in_flight)
        ≡ count_in_flight id q.in_flight =
      count_expired id later q.in_flight in
    let moved : count_visible id (expired_ids later q.in_flight) + 0
        ≡ count_in_flight id q.in_flight =
      rw none_live at same in
    (
      omega (arith, count_visible-append id q.visible (expired_ids later q.in_flight), moved),
      none_live,
    )

-- Once the visibility of every delivery has lapsed, each message that was received and not
-- acknowledged is visible again: with fresh receipts, asking for the depth then leaves no delivery
-- and, for each job, as many visible messages as were pending before the `receive`.
pub unacknowledged_reappear :
    (id : String) (now later : ℕ) (draw : ℕ → String × ℕ) (max_messages : ℕ) (q : JobQueue)
    → FreshReceipts draw q.in_flight
    → all_expired later (receive now draw max_messages q).0.in_flight ≡ true
    → let after = (depth later (receive now draw max_messages q).0).0 in
      (count_visible id after.visible ≡ pending id q) × (after.in_flight ≡ [])
unfolding depth
unacknowledged_reappear id now later draw max_messages q fresh gone =
    let r = requeue_all id later (receive now draw max_messages q).0 gone in
    (r.0 ∙ receive-pending id now draw max_messages q fresh, r.1)
