-- ===== src/JobQueue/Examples.antt =====
-- A queue with a redelivery.
use gen_ai_backend.Prelude.{
  ℕ, zero, suc, String, str_eq, eq_iff, ◌≡◌, ◌≢◌, refl, ap, Bool-cases, inl, inr, false, [], ◌∷◌,
  arith,
}
use Prim.Native.String.{◌++◌ as append, count}
use text.Mathlib.TextLemmas.{length-append}
use gen_ai_backend.JobQueue.{
  JobQueue, new, send, receive, receive_loop, requeue_expired, delete, depth,
}
use gen_ai_backend.JobQueue.Conservation.{
  pending, count_visible, FreshReceipts, unacknowledged_reappear,
}

abbrev two_jobs : JobQueue
two_jobs = send "b" (send "a" (new 30))

-- Receipts of growing length.
abbrev grow : ℕ → String
grow zero = "r"
grow (suc i) = append (grow i) "r"

count-grow : (i : ℕ) → count (grow i) ≡ suc i
count-grow zero = refl
count-grow (suc i) = omega (arith, length-append (grow i) "r", count-grow i)

abbrev draw : ℕ → String × ℕ
draw i = (grow i, 0)

draw_distinct : (i j : ℕ) → i ≢ j → str_eq (draw i).0 (draw j).0 ≡ false
draw_distinct i j ne = elim (Bool-cases (str_eq (grow i) (grow j))) [
  | inl same ↦ absurd (
      ne (
        let e = ap count ((eq_iff (grow i) (grow j)).0 same) in
        omega (arith, count-grow i, count-grow j)))
  | inr other ↦ other
]

draw_fresh : FreshReceipts draw two_jobs.in_flight
unfolding send new
draw_fresh = record { distinct = draw_distinct; unused = λ i. refl }

redelivered :
    (receive 30 (λ i. ("t", 30)) 1 (receive 0 (λ i. ("s", 0)) 1 two_jobs).0).1
    ≡ record { job_id = "b"; receipt = "t" } ∷ []
unfolding send new receive receive_loop requeue_expired
redelivered = refl

acknowledged :
    (depth 40
      (delete (record { job_id = "a"; receipt = "s" }) (receive 0 (λ i. ("s", 0)) 1 two_jobs).0)).1
    ≡ 1
unfolding send new receive receive_loop requeue_expired delete depth
acknowledged = refl

unacknowledged_reappear_example :
    (count_visible "a" (depth 30 (receive 0 draw 1 two_jobs).0).0.visible ≡ pending "a" two_jobs)
    × ((depth 30 (receive 0 draw 1 two_jobs).0).0.in_flight ≡ [])
unfolding send new receive receive_loop requeue_expired
unacknowledged_reappear_example = unacknowledged_reappear "a" 0 30 draw 1 two_jobs draw_fresh refl
