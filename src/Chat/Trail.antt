-- ===== src/Chat/Trail.antt =====
-- What a run adds to what it started from: the prompts sent, the audit rows and the tools that ran.
use mathlib.Core.List.{append-nil, append_assoc}
use gen_ai_backend.Prelude.{
  ℕ, zero, suc, ◌+◌, ◌≤◌, String, str_eq, ◌≡◌, refl, ap, sym, ◌∙◌, Bool, true, false, inl, inr,
  Option, none, some, List, [], ◌∷◌, ◌++◌, length, length-append, All, All-append, arith,
  if◌then◌else◌, Option-cases,
}
use gen_ai_backend.Prelude.Text.{Text}
use gen_ai_backend.Errors.{Attempt, returned, raised}
use gen_ai_backend.Tools.{ToolOutcome, Tool, execute_tool, outcome_of}
use gen_ai_backend.Chat.{
  final_answer, tool_call, ChatStep, ToolInvocation, dumped, record_tool_invocation, Run, observe,
  Provider, PromptParts, run_requested, tool_names,
}

-- The row says what the executor came to on these arguments.
pub record IsGenuine (registry : String → Option Tool) (session_id : String) (row : ToolInvocation)
    : Type 0 where
  pub arguments : Option String
  pub session : row.session_id ≡ session_id
  pub dumped_as : row.arguments_json ≡ dumped arguments
  pub result : row.result ≡ (execute_tool registry row.tool_name arguments).result
  pub ok : row.ok ≡ (execute_tool registry row.tool_name arguments).ok

-- The names of the rows that are ok, in order.
abbrev pub ok_names : List ToolInvocation → List String
ok_names [] = []
ok_names (row ∷ rows) = let rest = ok_names rows in if row.ok then row.tool_name ∷ rest else rest

pub record Grown (registry : String → Option Tool) (session_id : String) (calls : ℕ) (r r' : Run)
    : Type 0 where
  pub prompts : List Text
  pub sent : r'.sent ≡ r.sent ++ prompts
  pub bounded : length prompts ≤ calls
  pub rows : List ToolInvocation
  pub audited : r'.invocations ≡ r.invocations ++ rows
  pub genuine : All (IsGenuine registry session_id) rows
  pub earned : tool_names r'.executed_ok ≡ tool_names r.executed_ok ++ ok_names rows
  pub slot_free : r.breaker.probe_in_flight ≡ false → r'.breaker.probe_in_flight ≡ false

-- The same, with the prompts and the rows named.
abbrev pub GrownBy :
    (String → Option Tool) → String → ℕ → Run → Run → List Text → List ToolInvocation → Type 0
GrownBy registry session_id calls r r' prompts rows =
    (g : Grown registry session_id calls r r') × (g.prompts ≡ prompts) × (g.rows ≡ rows)

-- The row of one attempt, whatever it comes to.
abbrev pub row_of : (String → Option Tool) → String → String → Option String → ToolInvocation
row_of registry session_id requested arguments = record {
  session_id = session_id;
  tool_name = requested;
  arguments_json = dumped arguments;
  result = (execute_tool registry requested arguments).result;
  ok = (execute_tool registry requested arguments).ok;
}

-- The name that a reply asks for.
abbrev pub or_missing : Option String → String
or_missing none = "(missing tool_name)"
or_missing (some name) = if str_eq name "" then "(missing tool_name)" else name

-- The rows that the model's reply to one prompt of the loop calls for: one if it asks for a tool.
abbrev pub rows_asked : (String → Option Tool) → String → Attempt ChatStep → List ToolInvocation
rows_asked registry session_id (raised e) = []
rows_asked registry session_id (returned step) = elim step.action [
  | final_answer ↦ []
  | tool_call ↦ row_of registry session_id (or_missing step.tool_name) step.arguments ∷ []
]

-- The rows of a run with `n` passes of the loop, by the prompts that it sent: those of each pass in
-- order. The forced call behind them runs no tool.
abbrev pub rows_due : Provider → String → ℕ → List Text → List ToolInvocation
rows_due p session_id zero prompts = []
rows_due p session_id (suc n) [] = []
rows_due p session_id (suc n) (content ∷ later) =
    rows_asked p.registry session_id (p.create p.routed_model content)
    ++ rows_due p session_id n later

ok_names-append : (xs ys : List ToolInvocation) → ok_names (xs ++ ys) ≡ ok_names xs ++ ok_names ys
ok_names-append [] ys = refl
ok_names-append (x ∷ xs) ys = ground (arith, ok_names-append xs ys)

tool_names-append :
    (xs ys : List ToolOutcome) → tool_names (xs ++ ys) ≡ tool_names xs ++ tool_names ys
tool_names-append [] ys = refl
tool_names-append (x ∷ xs) ys = ap (λ t. x.tool_name ∷ t) (tool_names-append xs ys)

module _ (registry : String → Option Tool) (session_id : String) where
  chained {ℓ} : {A : Type ℓ} (a b c x y : List A) → b ≡ a ++ x → c ≡ b ++ y → c ≡ a ++ (x ++ y)
  chained a b c x y p q = q ∙ ap (λ t. t ++ y) p ∙ append_assoc a x y

  pub Grown-trans :
      (j k n : ℕ) (r r' r'' : Run)
      → j + k ≤ n
      → (g : Grown registry session_id j r r') → (h : Grown registry session_id k r' r'')
      → GrownBy registry session_id n r r'' (g.prompts ++ h.prompts) (g.rows ++ h.rows)
  Grown-trans j k n r r' r'' le g h = (
    record {
      prompts = g.prompts ++ h.prompts;
      sent = chained r.sent r'.sent r''.sent g.prompts h.prompts g.sent h.sent;
      bounded = omega (arith, length-append g.prompts h.prompts, g.bounded, h.bounded);
      rows = g.rows ++ h.rows;
      audited =
          chained r.invocations r'.invocations r''.invocations g.rows h.rows g.audited h.audited;
      genuine = All-append (IsGenuine registry session_id) g.rows h.rows g.genuine h.genuine;
      earned =
          chained (tool_names r.executed_ok) (tool_names r'.executed_ok)
            (tool_names r''.executed_ok) (ok_names g.rows) (ok_names h.rows) g.earned h.earned
          ∙ ap (λ t. tool_names r.executed_ok ++ t) (sym (ok_names-append g.rows h.rows));
      slot_free = λ f. h.slot_free (g.slot_free f);
    },
    refl,
    refl,
  )

  pub Grown-le :
      (j n : ℕ) (r r' : Run)
      → j ≤ n
      → (g : Grown registry session_id j r r') → GrownBy registry session_id n r r' g.prompts g.rows
  Grown-le j n r r' le g = (
    record {
      prompts = g.prompts;
      sent = g.sent;
      bounded = omega (arith, g.bounded);
      rows = g.rows;
      audited = g.audited;
      genuine = g.genuine;
      earned = g.earned;
      slot_free = g.slot_free;
    },
    refl,
    refl,
  )

  pub observe-Grown :
      (line : Text) (r : Run) → GrownBy registry session_id 0 r (observe line r) [] []
  observe-Grown line r = (
    record {
      prompts = [];
      sent = sym (append-nil r.sent);
      bounded = omega arith;
      rows = [];
      audited = sym (append-nil r.invocations);
      genuine = tt;
      earned = sym (append-nil (tool_names r.executed_ok));
      slot_free = λ f. f;
    },
    refl,
    refl,
  )

outcome_of-tool_name :
    (name : String) (a : Option (Attempt (List ℕ × String))) → (outcome_of name a).tool_name ≡ name
outcome_of-tool_name name none = refl
outcome_of-tool_name name (some (raised e)) = refl
outcome_of-tool_name name (some (returned (ids, text))) = refl

execute_tool-tool_name :
    (registry : String → Option Tool) (name : String) (arguments : Option String)
    → (execute_tool registry name arguments).tool_name ≡ name
unfolding execute_tool
execute_tool-tool_name registry name arguments = elim (Option-cases (registry name)) [
  | inl e ↦ rw e refl
  | inr (tool, e) ↦ rw e (outcome_of-tool_name name (tool.run arguments))
]

ok_earned :
    (ok : Bool) (o : ToolOutcome) (name : String) (os : List ToolOutcome)
    → o.tool_name ≡ name
    → tool_names (if ok then os ++ o ∷ [] else os) ≡ tool_names os ++ (if ok then name ∷ [] else [])
ok_earned true o name os e = tool_names-append os (o ∷ []) ∙ ap (λ n. tool_names os ++ n ∷ []) e
ok_earned false o name os e = sym (append-nil (tool_names os))

module _ (p : Provider) (session_id : String) (parts : PromptParts) where
  pub run_requested-Grown :
      (requested : String) (arguments : Option String) (r : Run)
      → GrownBy p.registry session_id 0 r
          (run_requested p session_id parts requested arguments r)
          []
          (row_of p.registry session_id requested arguments ∷ [])
  unfolding run_requested record_tool_invocation
  run_requested-Grown requested arguments r =
      let outcome = execute_tool p.registry requested arguments in
      let row = row_of p.registry session_id requested arguments in
      (
        record {
          prompts = [];
          sent = sym (append-nil r.sent);
          bounded = omega arith;
          rows = row ∷ [];
          audited = refl;
          genuine = (
            record {
              arguments = arguments;
              session = refl;
              dumped_as = refl;
              result = refl;
              ok = refl;
            },
            tt,
          );
          earned =
              ok_earned outcome.ok outcome requested r.executed_ok
                (execute_tool-tool_name p.registry requested arguments);
          slot_free = λ f. f;
        },
        refl,
        refl,
      )
