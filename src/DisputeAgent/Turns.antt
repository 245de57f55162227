-- ===== src/DisputeAgent/Turns.antt =====
-- Every pass of the loop keeps the run sound or lands it.
use mathlib.Core.List.{append_assoc}
use gen_ai_backend.Prelude.{
  ℕ, ◌+◌, String, str_eq, ◌≡◌, refl, ap, ◌∙◌, Bool-cases, inl, inr, Option, none, some, List, [],
  ◌∷◌, ◌++◌, length, take, length-append, arith,
}
use gen_ai_backend.Errors.{Attempt, returned, raised}
use gen_ai_backend.Tools.{Toolbox, execute_tool}
use gen_ai_backend.Disputes.{
  Class, Resolution, Reason, Dispute, is_open, evidence_gathered, mark_evidence_gathered,
  mark_proposed, mark_escalated, Action, tool_call, classify, propose, escalate, Observation,
  tool_answer, classified, proposed_as, escalated_for, unknown_class, invalid_proposal,
  no_tool_name, said, AgentStep,
}
use gen_ai_backend.DisputeAgent.{act_on, on_reply}
use gen_ai_backend.AgentTurns.{
  args_text, StepReply, Framed, Run, Turn, again, ended, or_text, step_row, note_step, tool_turn,
  tool_call_turn, classify_turn, propose_turn, escalate_turn, forced_landing, chosen_class,
  named_class,
}
use gen_ai_backend.AgentTurns.Trail.{
  append_free, Consecutive-snoc, set_observation_last, Earned-append, collected,
}
use gen_ai_backend.AgentTurns.Sound.{not_terminal, Landed, Sound}

module _ (tools : Toolbox) (ask : Dispute → List Framed → Attempt StepReply)
    (before : List AgentStep) (used : ℕ) where
  abbrev pub TurnOk : Turn → Type 0
  TurnOk (again r) = Sound tools before used r
  TurnOk (ended d trail e) = Landed tools ask before used d trail e

  grown :
      (r : Run) (s : AgentStep) (h : Sound tools before used r)
      → r.trail ++ s ∷ [] ≡ before ++ (h.steps ++ s ∷ [])
  grown r s h = ap (λ t. t ++ s ∷ []) (h.trail) ∙ append_assoc before h.steps (s ∷ [])

  longer :
      (r : Run) (s : AgentStep)
      → Sound tools before used r
      → r.next_index + 1 ≡ length (r.trail ++ s ∷ [])
  longer r s h = omega (arith, length-append r.trail (s ∷ []), h.index)

  note_step_ok :
      (action : Action) (o : Observation) (r : Run)
      → Sound tools before used r
      → TurnOk (note_step action o r)
  note_step_ok action o r h =
      let s = step_row r.next_index action o in
      rw (append_free s r.trail h.numbered h.index) (record {
        running = h.running;
        unproposed = h.unproposed;
        steps = h.steps ++ s ∷ [];
        trail = grown r s h;
        numbered = Consecutive-snoc 0 s r.trail h.numbered (omega (arith, h.index));
        index = longer r s h;
        evidence = Earned-append tools h.steps (s ∷ []) r.evidence_ids h.evidence;
        calls = h.calls;
      })

  tool_turn_ok :
      (name : String) (arguments : Option String) (r : Run)
      → Sound tools before used r
      → TurnOk (tool_turn tools name arguments r)
  tool_turn_ok name arguments r h =
      let outcome = execute_tool tools.registry name arguments in
      let intention : AgentStep = record {
        step_index = r.next_index;
        action = tool_call;
        tool_name = some name;
        tool_args = some (args_text arguments);
        observation = none;
      } in
      let observed = take 2000 (tools.dumps outcome.result) in
      let done : AgentStep = record intention { observation = some (tool_answer observed) } in
      rw
        (
          append_free intention r.trail h.numbered h.index,
          set_observation_last (tool_answer observed) intention r.trail h.numbered h.index,
        )
        (record {
          running = h.running;
          unproposed = h.unproposed;
          steps = h.steps ++ done ∷ [];
          trail = grown r done h;
          numbered = Consecutive-snoc 0 done r.trail h.numbered (omega (arith, h.index));
          index = longer r done h;
          evidence =
              collected tools name arguments h.steps done r.evidence_ids refl refl refl h.evidence;
          calls = h.calls;
        })

  tool_call_turn_ok :
      (reply : StepReply) (r : Run) (name : Option String)
      → Sound tools before used r
      → TurnOk (tool_call_turn tools reply r name)
  tool_call_turn_ok reply r none h = note_step_ok tool_call no_tool_name r h
  tool_call_turn_ok reply r (some name) h = elim (Bool-cases (str_eq name "")) [
    | inl y ↦ rw y (note_step_ok tool_call no_tool_name r h)
    | inr n ↦ rw n (tool_turn_ok name reply.arguments r h)
  ]

  with_class :
      (c : Class) (r : Run)
      → Sound tools before used r
      → Sound tools before used (record r { pending_class = some c })
  with_class c r h = record {
    running = h.running;
    unproposed = h.unproposed;
    steps = h.steps;
    trail = h.trail;
    numbered = h.numbered;
    index = h.index;
    evidence = h.evidence;
    calls = h.calls;
  }

  classify_turn_ok :
      (r : Run) (c : Option Class) → Sound tools before used r → TurnOk (classify_turn r c)
  unfolding mark_evidence_gathered
  classify_turn_ok r none h = note_step_ok classify unknown_class r h
  classify_turn_ok r (some c) h = elim (Bool-cases (is_open r.dispute.status)) [
    | inl y ↦ rw y (
        note_step_ok classify (classified c)
          (record r {
            pending_class = some c;
            dispute = record r.dispute { status = evidence_gathered };
          })
          (record {
            running = refl;
            unproposed = h.unproposed;
            steps = h.steps;
            trail = h.trail;
            numbered = h.numbered;
            index = h.index;
            evidence = h.evidence;
            calls = h.calls;
          }))
    | inr n ↦ rw n (
        note_step_ok classify (classified c) (record r { pending_class = some c })
          (with_class c r h))
  ]

  propose_turn_ok :
      (reply : StepReply) (r : Run) (c : Option Class) (resolution : Option Resolution)
      → Sound tools before used r
      → TurnOk (propose_turn reply r c resolution)
  unfolding mark_proposed
  propose_turn_ok reply r none resolution h = note_step_ok propose invalid_proposal r h
  propose_turn_ok reply r (some c) none h = note_step_ok propose invalid_proposal r h
  propose_turn_ok reply r (some c) (some resolution) h =
      let s = step_row r.next_index propose (proposed_as resolution c) in
      rw (append_free s r.trail h.numbered h.index, h.running)
        (record {
          steps = h.steps ++ s ∷ [];
          appended = grown r s h;
          numbered = Consecutive-snoc 0 s r.trail h.numbered (omega (arith, h.index));
          status = refl;
          cause = tt;
          grounded = Earned-append tools h.steps (s ∷ []) r.evidence_ids h.evidence;
          calls = h.calls;
        })

  escalate_turn_ok :
      (now : ℕ) (reply : StepReply) (r : Run)
      → Sound tools before used r
      → TurnOk (escalate_turn now reply r)
  unfolding mark_escalated
  escalate_turn_ok now reply r h =
      let s =
        step_row r.next_index escalate
          (escalated_for (said (or_text reply.reason "agent_requested"))) in
      rw (append_free s r.trail h.numbered h.index, not_terminal r.dispute.status h.running)
        (record {
          steps = h.steps ++ s ∷ [];
          appended = grown r s h;
          numbered = Consecutive-snoc 0 s r.trail h.numbered (omega (arith, h.index));
          status = refl;
          cause = tt;
          grounded = rw (h.unproposed) tt;
          calls = h.calls;
        })

  pub forced_landing_ok :
      (now : ℕ) (reason : Reason) (r : Run)
      → Sound tools before used r
      → TurnOk (forced_landing now reason r)
  unfolding mark_escalated
  forced_landing_ok now reason r h = rw (not_terminal r.dispute.status h.running) (record {
    steps = h.steps;
    appended = h.trail;
    numbered = h.numbered;
    status = refl;
    cause = tt;
    grounded = rw (h.unproposed) tt;
    calls = h.calls;
  })

  act_on_ok :
      (now : ℕ) (reply : StepReply) (r : Run) (action : Action)
      → Sound tools before used r
      → TurnOk (act_on tools ask now reply r action)
  act_on_ok now reply r tool_call h = tool_call_turn_ok reply r reply.tool_name h
  act_on_ok now reply r classify h = classify_turn_ok r (named_class reply.dispute_class) h
  act_on_ok now reply r propose h =
      propose_turn_ok reply r (chosen_class reply.dispute_class r.pending_class) reply.resolution h
  act_on_ok now reply r escalate h = escalate_turn_ok now reply r h

  pub on_reply_ok :
      (now : ℕ) (r : Run) (d : Dispute) (o : List Framed) (a : Attempt StepReply)
      → ask d o ≡ a
      → Sound tools before used r
      → TurnOk (on_reply tools ask now r a)
  on_reply_ok now r d o (returned reply) asked h = act_on_ok now reply r reply.action h
  on_reply_ok now r d o (raised e) asked h = record {
    steps = h.steps;
    appended = h.trail;
    numbered = h.numbered;
    status = h.running;
    cause = (d, o, asked);
    grounded = rw (h.unproposed) tt;
    calls = h.calls;
  }
