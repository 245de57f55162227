-- ===== src/Floats.antt =====
-- Python's floats as a type with the operations that the program uses, and no laws.
use gen_ai_backend.Prelude.{ℕ, Bool, if◌then◌else◌}

pub record Floats : Type 1 where
  pub F : Type 0
  pub of_nat : ℕ → F
  pub add : F → F → F
  pub sub : F → F → F
  pub mul : F → F → F
  pub div : F → F → F
  pub log : F → F
  pub sqrt : F → F
  pub lt : F → F → Bool
  pub le : F → F → Bool

module _ (fl : Floats) where
  open fl use {F, of_nat, add, div, lt}

  abbrev pub zero_f : F
  zero_f = of_nat 0

  -- `p / q`, of a constant that a float holds exactly.
  abbrev pub ratio : ℕ → ℕ → F
  ratio p q = div (of_nat p) (of_nat q)

  -- `max(a, b)`: the first, unless the second is greater.
  abbrev pub max_f : F → F → F
  max_f a b = if lt a b then b else a
