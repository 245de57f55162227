-- ===== src/ToolFunctions.antt =====
-- narration-enrichment/src/narration_enrichment/tools.py: the three tools that read enrichment records, and
-- their registry; the inventory of policies is PolicyList. `db_lower` is SQL's lower and `str_lower`
-- Python's. The shape of the arguments is pydantic's to check and an argument here; the bounds of the
-- fields are checked here. Rows that SQL leaves in any order stay in the order of the table.
pub mod Counts
mod Examples
use gen_ai_backend.Prelude.{
  ℕ, zero, suc, ◌+◌, ◌*◌, String, str_eq, Bool, true, false, ◌&&◌, leb, Option, none, some, List,
  [], ◌∷◌, take, if◌then◌else◌,
}
use gen_ai_backend.Prelude.Text.{Text}
use gen_ai_backend.Prelude.Sort.{sort_by}
use gen_ai_backend.Errors.{Attempt, returned}
use gen_ai_backend.Tools.{Tool}
use gen_ai_backend.Bm25.{text_eq}
use gen_ai_backend.Enrichments.{EnrichmentRecord}

pub record CountTransactionsArgs : Type 0 where
  pub category : Option Text
  pub merchant : Option Text
  pub days : Option ℕ

pub record FindTransactionsArgs : Type 0 where
  pub merchant : Option Text
  pub category : Option Text
  pub limit : ℕ

-- `Field(ge=1, le=3650)`, of a field that may be None.
abbrev days_in_bounds : Option ℕ → Bool
days_in_bounds none = true
days_in_bounds (some d) = leb 1 d && leb d 3650

-- `Field(ge=1, le=20)`
abbrev limit_in_bounds : ℕ → Bool
limit_in_bounds n = leb 1 n && leb n 20

abbrev one_day : ℕ
one_day = 86400000

-- `created_at >= now - timedelta(days)`, of milliseconds, without the subtraction.
abbrev is_recent : ℕ → Option ℕ → ℕ → Bool
is_recent now none created_at = true
is_recent now (some days) created_at = leb now (created_at + days * one_day)

module _ (db_lower str_lower : Text → Text) where
  -- `q.filter(func.lower(column) == wanted.lower())`, if it is asked for.
  abbrev pub is_like : Option Text → Text → Bool
  is_like none value = true
  is_like (some wanted) value = text_eq (db_lower value) (str_lower wanted)

  module _ {V : Type 0} where
    abbrev pub where_like :
        Option Text → Option Text → List (EnrichmentRecord V) → List (EnrichmentRecord V)
    where_like category merchant [] = []
    where_like category merchant (r ∷ rs) =
        let rest = where_like category merchant rs in
        if is_like category r.category && is_like merchant r.merchant then r ∷ rest else rest

abbrev pub since :
    {V : Type 0} → ℕ → Option ℕ → List (EnrichmentRecord V) → List (EnrichmentRecord V)
since now days [] = []
since now days (r ∷ rs) =
    let rest = since now days rs in if is_recent now days r.created_at then r ∷ rest else rest

abbrev pub count : {A : Type 0} → List A → ℕ
count [] = 0
count (x ∷ xs) = suc (count xs)

-- `GROUP BY category`: one more in the group.
pub add_to_group : Text → List (Text × ℕ) → List (Text × ℕ)
add_to_group category [] = (category, 1) ∷ []
add_to_group category ((c, n) ∷ groups) =
    let rest = add_to_group category groups in
    if text_eq c category then (c, suc n) ∷ groups else (c, n) ∷ rest

pub group : {V : Type 0} → List (EnrichmentRecord V) → List (Text × ℕ)
group [] = []
group (r ∷ rs) = add_to_group r.category (group rs)

abbrev pub largest_first : Text × ℕ → Text × ℕ → Bool
largest_first a b = leb b.1 a.1

abbrev pub newest_first : {V : Type 0} → EnrichmentRecord V → EnrichmentRecord V → Bool
newest_first a b = leb b.id a.id

-- What pydantic makes of the arguments, and json.dumps of a result.
pub record Shapes (V : Type 0) : Type 0 where
  pub count_args : Option String → Option CountTransactionsArgs
  pub breakdown_days : Option String → Option (Option ℕ)
  pub find_args : Option String → Option FindTransactionsArgs
  pub dump_count : ℕ → String
  pub dump_groups : List (Text × ℕ) → String
  pub dump_records : List (EnrichmentRecord V) → String

module _ {V : Type 0} (db_lower str_lower : Text → Text) (now : ℕ)
    (records : List (EnrichmentRecord V)) where
  -- `_count_transactions`
  unfoldable pub count_transactions : CountTransactionsArgs → ℕ
  count_transactions args =
      count
        (since now args.days (where_like db_lower str_lower args.category args.merchant records))

  -- `_category_breakdown`
  unfoldable pub category_breakdown : Option ℕ → List (Text × ℕ)
  category_breakdown days = sort_by largest_first (group (since now days records))

  -- `_find_transactions`
  unfoldable pub find_transactions : FindTransactionsArgs → List (EnrichmentRecord V)
  find_transactions args =
      take args.limit
        (sort_by newest_first (where_like db_lower str_lower args.category args.merchant records))

  abbrev ids : List (EnrichmentRecord V) → List ℕ
  ids [] = []
  ids (r ∷ rs) = r.id ∷ ids rs

  module _ (shapes : Shapes V) where
    abbrev count_tool : Option CountTransactionsArgs → Option (Attempt (List ℕ × String))
    count_tool none = none
    count_tool (some args) =
        if days_in_bounds args.days
        then some (returned ([], shapes.dump_count (count_transactions args)))
        else none

    abbrev breakdown_tool : Option (Option ℕ) → Option (Attempt (List ℕ × String))
    breakdown_tool none = none
    breakdown_tool (some days) =
        if days_in_bounds days
        then some (returned ([], shapes.dump_groups (category_breakdown days)))
        else none

    abbrev pub find_tool : Option FindTransactionsArgs → Option (Attempt (List ℕ × String))
    find_tool none = none
    find_tool (some args) =
        if limit_in_bounds args.limit
        then some
            (returned (ids (find_transactions args), shapes.dump_records (find_transactions args)))
        else none

    -- TOOL_REGISTRY, less the inventory of the policies, which is given.
    unfoldable pub tool_registry : Tool → String → Option Tool
    tool_registry list_policy_docs name =
        if str_eq name "count_transactions"
        then some (record { run = λ arguments. count_tool (shapes.count_args arguments) })
        else if str_eq name "category_breakdown"
        then some (record { run = λ arguments. breakdown_tool (shapes.breakdown_days arguments) })
        else if str_eq name "find_transactions"
        then some (record { run = λ arguments. find_tool (shapes.find_args arguments) })
        else if str_eq name "list_policy_docs"
        then some list_policy_docs
        else none
