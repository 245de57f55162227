-- ===== src/AgentTurns/Trail.antt =====
-- The trail: its indices, and the evidence that its observations carry.
use mathlib.Core.List.{append_assoc}
use gen_ai_backend.Prelude.{
  ap, take, String, ℕ, ◌+◌, ◌≤◌, ◌≡◌, refl, ◌∙◌, Bool, true, false, Bool-cases, inl, inr, ◌||◌,
  ◌==◌, Option, some, List, [], ◌∷◌, ◌++◌, length, arith, ltb, All,
}
use gen_ai_backend.Tools.{Toolbox, execute_tool, result_ids}
use gen_ai_backend.Disputes.{Observation, tool_answer, AgentStep, index_taken, append_agent_step}
use gen_ai_backend.AgentTurns.{set_observation, add_id, add_ids, args_text, collect_evidence_ids}

-- The indices count on from `k`.
abbrev pub Consecutive : ℕ → List AgentStep → Type 0
Consecutive k [] = Unit
Consecutive k (s ∷ ss) = (s.step_index ≡ k) × Consecutive (k + 1) ss

index_free :
    (k n : ℕ) (t : List AgentStep) → Consecutive k t → k + length t ≤ n → index_taken n t ≡ false
index_free k n [] c h = refl
index_free k n (s ∷ ss) c h = ground (arith, index_free (k + 1) n ss c.1)

pub append_free :
    (s : AgentStep) (t : List AgentStep)
    → Consecutive 0 t
    → s.step_index ≡ length t
    → append_agent_step s t ≡ some (t ++ s ∷ [])
unfolding append_agent_step
append_free s t c h = rw (index_free 0 s.step_index t c (omega arith)) refl

pub Consecutive-snoc :
    (k : ℕ) (s : AgentStep) (t : List AgentStep)
    → Consecutive k t
    → s.step_index ≡ k + length t
    → Consecutive k (t ++ s ∷ [])
Consecutive-snoc k s [] c h = (omega arith, tt)
Consecutive-snoc k s (x ∷ xs) c h = (c.0, Consecutive-snoc (k + 1) s xs c.1 (omega arith))

set_unmatched :
    (n : ℕ) (o : Observation) (s : AgentStep) (t : List AgentStep)
    → index_taken n t ≡ false
    → s.step_index ≡ n
    → set_observation n o (t ++ s ∷ []) ≡ t ++ record s { observation = some o } ∷ []
set_unmatched n o s [] h e = ground arith
set_unmatched n o s (x ∷ xs) h e = ground (arith, set_unmatched n o s xs)

-- The observation lands on the row that was appended.
pub set_observation_last :
    (o : Observation) (s : AgentStep) (t : List AgentStep)
    → Consecutive 0 t
    → s.step_index ≡ length t
    → set_observation s.step_index o (t ++ s ∷ []) ≡ t ++ record s { observation = some o } ∷ []
set_observation_last o s t c h =
    set_unmatched s.step_index o s t (index_free 0 s.step_index t c (omega arith)) refl

abbrev has_id : ℕ → List ℕ → Bool
has_id i [] = false
has_id i (x ∷ xs) = (i == x) || has_id i xs

module _ (tools : Toolbox) where
  -- The step is a recorded call of a tool, and that call succeeded with the id among its rows.
  pub record IsSource (i : ℕ) (s : AgentStep) : Type 0 where
    pub name : String
    pub arguments : Option String
    pub called : s.tool_name ≡ some name
    pub given : s.tool_args ≡ some (args_text arguments)
    pub observed :
        s.observation
        ≡ some (
            tool_answer
              (take 2000 (tools.dumps (execute_tool tools.registry name arguments).result)))
    pub ok : (execute_tool tools.registry name arguments).ok ≡ true
    pub carries : has_id i (result_ids (execute_tool tools.registry name arguments).result) ≡ true

  abbrev HasSource : List AgentStep → ℕ → Type 0
  HasSource t i =
      (earlier : List AgentStep) × (s : AgentStep) × (later : List AgentStep) × (t
        ≡ earlier ++ s ∷ later)
      × IsSource i s

  -- Each id has a step of the trail that it comes from.
  abbrev pub Earned : List AgentStep → List ℕ → Type 0
  Earned t ids = All (HasSource t) ids

  pub Earned-append : (t u : List AgentStep) (ids : List ℕ) → Earned t ids → Earned (t ++ u) ids
  Earned-append t u [] h = tt
  Earned-append t u (i ∷ is) ((earlier, s, later, at, source), more) = (
    (earlier, s, later ++ u, ap (λ x. x ++ u) at ∙ append_assoc earlier (s ∷ later) u, source),
    Earned-append t u is more,
  )

  Earned-add_id :
      (t : List AgentStep) (i : ℕ) (ids : List ℕ)
      → HasSource t i
      → Earned t ids
      → Earned t (add_id i ids)
  Earned-add_id t i [] e h = (e, tt)
  Earned-add_id t i (x ∷ xs) e h = elim (Bool-cases (i == x)) [
    | inl y ↦ rw y h
    | inr n ↦ elim (Bool-cases (ltb i x)) [
      | inl l ↦ rw (n, l) (e, h)
      | inr g ↦ rw (n, g) (h.0, Earned-add_id t i xs e h.1)
    ]
  ]

  Earned-add_ids :
      (t : List AgentStep) (new seen : List ℕ)
      → Earned t new
      → Earned t seen
      → Earned t (add_ids new seen)
  Earned-add_ids t [] seen hn h = h
  Earned-add_ids t (i ∷ is) seen hn h =
      Earned-add_ids t is (add_id i seen) hn.1 (Earned-add_id t i seen hn.0 h)

  each :
      (t : List AgentStep) (ids : List ℕ)
      → ((i : ℕ) → has_id i ids ≡ true → HasSource t i)
      → Earned t ids
  each t [] h = tt
  each t (i ∷ is) h = (h i (ground arith), each t is (λ k e. h k (ground arith)))

  -- A recorded call's ids, added to evidence that is earned, are earned by the trail with that call.
  pub collected :
      (name : String) (arguments : Option String) (t : List AgentStep) (s : AgentStep)
      (seen : List ℕ)
      → s.tool_name ≡ some name
      → s.tool_args ≡ some (args_text arguments)
      → s.observation
        ≡ some (
            tool_answer
              (take 2000 (tools.dumps (execute_tool tools.registry name arguments).result)))
      → Earned t seen
      → Earned
          (t ++ s ∷ [])
          (collect_evidence_ids (execute_tool tools.registry name arguments) seen)
  unfolding collect_evidence_ids
  collected name arguments t s seen called given observed h =
      let outcome = execute_tool tools.registry name arguments in
      let kept = Earned-append t (s ∷ []) seen h in
      elim (Bool-cases outcome.ok) [
        | inl y ↦ rw y (
            Earned-add_ids (t ++ s ∷ []) (result_ids outcome.result) seen
              (each (t ++ s ∷ []) (result_ids outcome.result) (λ i has. (
                t,
                s,
                [],
                refl,
                record {
                  name = name;
                  arguments = arguments;
                  called = called;
                  given = given;
                  observed = observed;
                  ok = y;
                  carries = has;
                },
              )))
              kept)
        | inr n ↦ rw n kept
      ]
