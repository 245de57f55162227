-- ===== src/Chat/Loop.antt =====
-- The tool loop lands: what it sends, what it leaves on record and what it answers.
use mathlib.Core.List.{append-nil}
use gen_ai_backend.Prelude.{
  ℕ, zero, suc, String, ◌≡◌, refl, sym, ◌∙◌, ◌⊎◌, true, false, Bool-cases, inl, inr, Option, none,
  some, List, [], ◌∷◌, arith,
}
use gen_ai_backend.Prelude.Text.{Text, is_empty, strip, lstrip, rstrip}
use gen_ai_backend.Errors.{Attempt, returned, raised}
use gen_ai_backend.Chat.{
  ChatAction, tool_call, final_answer, ChatStep, ToolInvocation, observe, run_requested, Run,
  Provider, PromptParts, Pass, again, landed, failed, invalid_step, requested_name, on_action,
  on_step, force, loop_on, tool_loop,
}
use gen_ai_backend.Chat.Trail.{
  Grown, Grown-le, Grown-trans, observe-Grown, run_requested-Grown, row_of, or_missing, rows_asked,
  rows_due,
}
use gen_ai_backend.Chat.Calls.{Cause, Lands, CallOk, reason_for, call-ok, later-Lands}

strip-nil : is_empty (strip []) ≡ true
unfolding strip lstrip rstrip
strip-nil = refl

answer_is_said : (answer : Text) → is_empty (strip answer) ≡ false → is_empty answer ≡ false
answer_is_said [] h = absurd (let wrong : true ≡ false = sym strip-nil ∙ h in cc)
answer_is_said (c ∷ cs) h = refl

module _ (p : Provider) (session_id : String) (parts : PromptParts) where
  abbrev due : Text → List ToolInvocation
  due content = rows_asked p.registry session_id (p.create p.routed_model content)

  -- A last pass sent nothing, or one prompt whose rows are due.
  abbrev Prompted : List Text → List ToolInvocation → Type 0
  Prompted prompts rows =
      ((prompts ≡ []) × (rows ≡ []))
      ⊎ ((content : Text) × (prompts ≡ content ∷ []) × (rows ≡ due content))

  -- What a run with that many passes owes: its rows are those that its prompts call for.
  abbrev pub Owes : ℕ → Run → Run × Attempt Text → Type 0
  Owes n r out =
      (g : Grown p.registry session_id (suc n) r out.0) × (g.rows
        ≡ rows_due p session_id n g.prompts)
      × Lands p out.0.breaker g.prompts out.1

  rows_due-nil : (n : ℕ) → rows_due p session_id n [] ≡ []
  rows_due-nil zero = refl
  rows_due-nil (suc n) = refl

  Prompted-due :
      (n : ℕ) (prompts : List Text) (rows : List ToolInvocation)
      → Prompted prompts rows
      → rows ≡ rows_due p session_id (suc n) prompts
  Prompted-due n prompts rows (inl (sent, none_due)) = rw (sent, none_due) refl
  Prompted-due n prompts rows (inr (content, sent, h)) =
      rw (sent, h, rows_due-nil n) (sym (append-nil (due content)))

  abbrev PassOk : Run → Pass → Type 0
  PassOk r (again r') =
      (g : Grown p.registry session_id 1 r r') × (content : Text) × (g.prompts ≡ content ∷ [])
      × (g.rows ≡ due content)
  PassOk r (landed r' answer) =
      (g : Grown p.registry session_id 1 r r') × Prompted g.prompts g.rows
      × Lands p r'.breaker g.prompts (returned answer)
  PassOk r (failed r' e) =
      (g : Grown p.registry session_id 1 r r') × Prompted g.prompts g.rows × Cause p r'.breaker e

  name_lem : (name : Option String) → requested_name p session_id parts name ≡ or_missing name
  name_lem none = refl
  name_lem (some name) = refl

  tool-ok :
      (step : ChatStep) (r r' : Run) (g : Grown p.registry session_id 1 r r') (content : Text)
      → g.rows ≡ []
      → g.prompts ≡ content ∷ []
      → due content ≡ row_of p.registry session_id (or_missing step.tool_name) step.arguments ∷ []
      → PassOk r (on_action p session_id parts step r' tool_call)
  tool-ok step r r' g content silent sent asked =
      let name = requested_name p session_id parts step.tool_name in
      let (h, none_sent, row) = run_requested-Grown p session_id parts name step.arguments r' in
      let (k, prompts, rows) =
        Grown-trans p.registry session_id 1 0 1 r r'
          (run_requested p session_id parts name step.arguments r') (omega arith) g h in
      (
        k,
        content,
        rw (prompts, sent, none_sent) refl,
        rw (rows, silent, row, asked, name_lem step.tool_name) refl,
      )

  answer-ok :
      (step : ChatStep) (r r' : Run) (g : Grown p.registry session_id 1 r r') (content : Text)
      → g.rows ≡ []
      → g.prompts ≡ content ∷ []
      → due content ≡ []
      → p.create p.routed_model content ≡ returned step
      → PassOk r (on_action p session_id parts step r' final_answer)
  answer-ok step r r' g content silent sent asked reply =
      elim (Bool-cases (is_empty (strip step.answer))) [
        | inl y ↦
            let (h, none_sent, no_row) = observe-Grown p.registry session_id invalid_step r' in
            let (k, prompts, rows) =
              Grown-trans p.registry session_id 1 0 1 r r' (observe invalid_step r') (omega arith) g
                h in
            rw y (
              k,
              content,
              rw (prompts, sent, none_sent) refl,
              rw (rows, silent, no_row, asked) refl,
            )
        | inr n ↦ rw n (
          g,
          inr (content, sent, silent ∙ sym asked),
          (answer_is_said step.answer n, ([], content, step, sent, reply, inl refl)),
        )
      ]

  on_action-ok :
      (step : ChatStep) (r r' : Run) (g : Grown p.registry session_id 1 r r') (content : Text)
      (action : ChatAction)
      → g.rows ≡ []
      → g.prompts ≡ content ∷ []
      → p.create p.routed_model content ≡ returned step
      → step.action ≡ action
      → PassOk r (on_action p session_id parts step r' action)
  on_action-ok step r r' g content tool_call silent sent asked h =
      tool-ok step r r' g content silent sent (rw (asked, h) refl)
  on_action-ok step r r' g content final_answer silent sent asked h =
      answer-ok step r r' g content silent sent (rw (asked, h) refl) asked

  on_step-ok :
      (r : Run) (out : Run × Attempt ChatStep)
      → CallOk p session_id parts r out
      → PassOk r (on_step p session_id parts out)
  on_step-ok r (r', raised e) (g, silent, inl (ms, sent, shut, h)) =
      (g, inl (sent, silent), inl (ms, shut, h))
  on_step-ok r (r', raised e) (g, silent, inr (content, sent, h)) =
      (g, inr (content, sent, silent ∙ rw h refl), inr (content, h))
  on_step-ok r (r', returned step) (g, silent, (content, sent, asked)) =
      on_action-ok step r r' g content step.action silent sent asked refl

  force-ok :
      (r : Run) (out : Run × Attempt ChatStep)
      → CallOk p session_id parts r out
      → Owes 0 r (force p session_id parts out)
  force-ok r (r', raised e) (g, silent, asked) =
      (g, silent, reason_for p session_id parts r'.breaker g.prompts e asked)
  force-ok r (r', returned step) (g, silent, (content, sent, reply)) =
      elim (Bool-cases (is_empty (strip step.answer))) [
        | inl y ↦ rw y (g, silent, (refl, ([], content, step, sent, reply, inr (inr (y, refl)))))
        | inr n ↦ rw n (g, silent, (n, ([], content, step, sent, reply, inr (inl refl))))
      ]

  ended-ok :
      (n : ℕ) (r r' : Run) (answer : Attempt Text) (g : Grown p.registry session_id 1 r r')
      → Prompted g.prompts g.rows
      → Lands p r'.breaker g.prompts answer
      → Owes (suc n) r (r', answer)
  ended-ok n r r' answer g shape lands =
      let (k, prompts, rows) =
        Grown-le p.registry session_id 1 (suc (suc n)) r r' (omega arith) g in
      (k, rw (rows, prompts) (Prompted-due n g.prompts g.rows shape), rw prompts lands)

  loop_on-ok :
      (n : ℕ) (r : Run) (pass : Pass) (next : Run → Run × Attempt Text)
      → PassOk r pass
      → ((r' : Run) → Owes n r' (next r'))
      → Owes (suc n) r (loop_on p session_id parts pass next)
  loop_on-ok n r (again r') next (g, content, sent, asked) rest =
      let (h, owed, lands) = rest r' in
      let (k, prompts, rows) =
        Grown-trans p.registry session_id 1 (suc n) (suc (suc n)) r r' (next r').0 (omega arith) g
          h in
      (
        k,
        rw (rows, prompts, sent, asked, owed) refl,
        rw (prompts, sent)
            (later-Lands p ((next r').0.breaker) content (h.prompts) ((next r').1) lands),
      )
  loop_on-ok n r (landed r' answer) next (g, shape, said) rest =
      ended-ok n r r' (returned answer) g shape said
  loop_on-ok n r (failed r' e) next (g, shape, cause) rest =
      ended-ok n r r' (raised e) g shape cause

  -- The loop with `n` passes left and the forced call after it ends, from every run and for every
  -- model, tool and state of the breaker. It sends at most `n` + 1 prompts. It answers with a text
  -- that is not empty, from the model's reply to the last prompt or, where that is blank, the
  -- fallback text, or raises what the model raised or, with a breaker that is then not closed, the
  -- breaker's refusal. The audit rows that it adds are exactly those that the model's replies to
  -- its prompts call for, in order: one for each request of a tool, whether the tool succeeds,
  -- fails, refuses its arguments or is unknown, with the name and the arguments that were asked for
  -- and what the executor came to. The tools that ran are the rows that are ok, and a breaker whose
  -- probe slot was free gets it back.
  pub tool_loop-Lands : (n : ℕ) (r : Run) → Owes n r (tool_loop p session_id parts n r)
  unfolding tool_loop
  tool_loop-Lands zero r = force-ok r _ (call-ok p session_id parts false true (p.clock zero) r)
  tool_loop-Lands (suc n) r =
      loop_on-ok n r _ (tool_loop p session_id parts n)
        (on_step-ok r _ (call-ok p session_id parts true false (p.clock (suc n)) r))
        (tool_loop-Lands n)
