-- ===== src/DisputeRoutes/Examples.antt =====
-- A proposed dispute, its owner and a stranger.
use gen_ai_backend.Prelude.{◌≡◌, refl, Option, some, List, [], ◌∷◌}
use gen_ai_backend.Errors.{Raised, plain, timeout}
use gen_ai_backend.Disputes.{
  AgentStep, Dispute, proposed, approved, rejected, create_dispute, get_dispute_owned_by,
  mark_rejected,
}
use gen_ai_backend.DisputeReads.{not_found, disputes_get}
use gen_ai_backend.DisputeRoutes.{
  ok, http, disputes_approve, disputes_reject, disputes_run, run_error_status,
}
use gen_ai_backend.DisputeRoutes.Gate.{strangers_see_nothing, approval_stands}

abbrev pending : Dispute
pending = record (create_dispute 10 "d" "k" (some 7) "not mine") { status = proposed }

abbrev run : Dispute → Dispute × List AgentStep × Option Raised
run d = (d, [], some (plain timeout))

timed_out : (disputes_run run "d" "k" (pending ∷ [])).1 ≡ http 504
unfolding disputes_run get_dispute_owned_by create_dispute run_error_status
timed_out = refl

rejects :
    (disputes_reject 20 "no" "d" "k" (pending ∷ [])).1
    ≡ ok (record pending { status = rejected; rejection_reason = some "no"; resolved_at = some 20 })
unfolding disputes_reject get_dispute_owned_by create_dispute mark_rejected
rejects = refl

strangers_see_nothing_example :
    (disputes_get (λ id. []) "d" "x" (pending ∷ []) ≡ not_found)
    × (disputes_run run "d" "x" (pending ∷ []) ≡ (pending ∷ [], http 404))
    × (disputes_approve 20 "d" "x" (pending ∷ []) ≡ (pending ∷ [], http 404))
    × (disputes_reject 20 "no" "d" "x" (pending ∷ []) ≡ (pending ∷ [], http 404))
unfolding create_dispute
strangers_see_nothing_example =
    strangers_see_nothing 20 "no" "d" "x" run (λ id. []) (pending ∷ []) (λ same. refl, tt)

approval_stands_example :
    let ds = (disputes_approve 20 "d" "k" (pending ∷ [])).0 in
    (get_dispute_owned_by "d" "k" ds
      ≡ some (record pending { status = approved; resolved_at = some 20 }))
    × (disputes_approve 30 "d" "k" ds ≡ (ds, http 409))
    × (disputes_reject 30 "no" "d" "k" ds ≡ (ds, http 409))
unfolding create_dispute get_dispute_owned_by
approval_stands_example = approval_stands 20 30 "no" "d" "k" (pending ∷ []) pending refl refl
