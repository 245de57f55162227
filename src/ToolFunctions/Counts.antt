-- ===== src/ToolFunctions/Counts.antt =====
-- The tools' numbers are exact and agree with one another.
use gen_ai_backend.Prelude.{
  ℕ, suc, ◌+◌, min, ◌≡◌, refl, ap, sym, ◌∙◌, true, false, ◌&&◌, ◌==◌, Bool-cases, inl, inr, Option,
  none, List, [], ◌∷◌, All, All-take, length, length-take, arith, if◌then◌else◌,
}
use gen_ai_backend.Prelude.Text.{Text}
use gen_ai_backend.Prelude.Sort.{
  sort_by, length-sort_by, All-sort_by, IsOrdered, IsOrdered-take, sort_by-sorts, sum_by,
  sum_by-sort_by,
}
use gen_ai_backend.Bm25.{text_eq}
use gen_ai_backend.Enrichments.{EnrichmentRecord}
use gen_ai_backend.ToolFunctions.{
  FindTransactionsArgs, is_like, where_like, since, count, add_to_group, group, largest_first,
  newest_first, count_transactions, category_breakdown, find_transactions,
}

text_eq-eq : (a b : Text) → text_eq a b ≡ true → a ≡ b
text_eq-eq [] [] h = refl
text_eq-eq [] (d ∷ ds) h = cc
text_eq-eq (c ∷ cs) [] h = cc
text_eq-eq (c ∷ cs) (d ∷ ds) h = elim (Bool-cases (c == d)) [
  | inl y ↦ let e : c ≡ d = ground arith in rw e (ap (λ t. d ∷ t) (text_eq-eq cs ds (rw y at h)))
  | inr n ↦ absurd (let wrong : false ≡ true = rw n at h in cc)
]

-- The number of a group, by its category.
abbrev size_of : Text → Text × ℕ → ℕ
size_of c g = if text_eq g.0 c then g.1 else 0

abbrev pub counted_as : Text → List (Text × ℕ) → ℕ
counted_as c = sum_by (size_of c)

abbrev pub total : List (Text × ℕ) → ℕ
total = sum_by (λ (g : Text × ℕ). g.1)

total-add_to_group : (k : Text) (gs : List (Text × ℕ)) → total (add_to_group k gs) ≡ suc (total gs)
unfolding add_to_group
total-add_to_group k [] = refl
total-add_to_group k ((c, n) ∷ gs) = ground (arith, total-add_to_group k gs)

counted_as-add_to_group :
    (k c : Text) (gs : List (Text × ℕ))
    → counted_as c (add_to_group k gs) ≡ (if text_eq k c then 1 else 0) + counted_as c gs
unfolding add_to_group
counted_as-add_to_group k c [] = ground arith
counted_as-add_to_group k c ((j, n) ∷ gs) = elim (Bool-cases (text_eq j k)) [
  | inl y ↦ rw (y, text_eq-eq j k y) (ground arith)
  | inr m ↦ rw m (ground (arith, counted_as-add_to_group k c gs))
]

module _ {V : Type 0} where
  -- How many records have exactly that category.
  abbrev pub of_category : Text → List (EnrichmentRecord V) → ℕ
  of_category c [] = 0
  of_category c (r ∷ rs) = (if text_eq r.category c then 1 else 0) + of_category c rs

  total-group : (rs : List (EnrichmentRecord V)) → total (group rs) ≡ count rs
  unfolding group
  total-group [] = refl
  total-group (r ∷ rs) = omega (arith, total-add_to_group r.category (group rs), total-group rs)

  counted_as-group :
      (c : Text) (rs : List (EnrichmentRecord V)) → counted_as c (group rs) ≡ of_category c rs
  unfolding group
  counted_as-group c [] = refl
  counted_as-group c (r ∷ rs) =
      omega (arith, counted_as-add_to_group r.category c (group rs), counted_as-group c rs)

  where_like_any :
      (db_lower str_lower : Text → Text) (rs : List (EnrichmentRecord V))
      → where_like db_lower str_lower none none rs ≡ rs
  where_like_any db_lower str_lower [] = refl
  where_like_any db_lower str_lower (r ∷ rs) =
      ap (λ t. r ∷ t) (where_like_any db_lower str_lower rs)

  count-length : (rs : List (EnrichmentRecord V)) → count rs ≡ length rs
  count-length [] = refl
  count-length (r ∷ rs) = ap suc (count-length rs)

  since_always : (now : ℕ) (rs : List (EnrichmentRecord V)) → since now none rs ≡ rs
  since_always now [] = refl
  since_always now (r ∷ rs) = ap (λ t. r ∷ t) (since_always now rs)

  -- A record that the filters of a search let through.
  abbrev pub Fits :
      (Text → Text) → (Text → Text) → FindTransactionsArgs → EnrichmentRecord V → Type 0
  Fits db_lower str_lower args r =
      (is_like db_lower str_lower args.category r.category
        && is_like db_lower str_lower args.merchant r.merchant)
      ≡ true

  all_fit :
      (db_lower str_lower : Text → Text) (args : FindTransactionsArgs)
      (rs : List (EnrichmentRecord V))
      → All
          (Fits db_lower str_lower args)
          (where_like db_lower str_lower args.category args.merchant rs)
  all_fit db_lower str_lower args [] = tt
  all_fit db_lower str_lower args (r ∷ rs) =
      elim (Bool-cases (
        is_like db_lower str_lower args.category r.category
        && is_like db_lower str_lower args.merchant r.merchant)) [
          | inl y ↦ rw y (y, all_fit db_lower str_lower args rs)
          | inr n ↦ rw n (all_fit db_lower str_lower args rs)
        ]

module _ {V : Type 0} (db_lower str_lower : Text → Text) (now : ℕ)
    (records : List (EnrichmentRecord V)) where
  -- Over any table and window of days: the numbers of the breakdown add up to the count of all
  -- transactions of the window, the number of a category is the number of records of the window
  -- that have exactly that category, and the groups come largest first.
  pub breakdown_is_exact :
      (days : Option ℕ) (category : Text)
      → let groups = category_breakdown db_lower str_lower now records days in
        (total groups
          ≡ count_transactions db_lower str_lower now records
              (record { category = none; merchant = none; days = days }))
        × (counted_as category groups ≡ of_category category (since now days records))
        × IsOrdered largest_first groups
  unfolding category_breakdown count_transactions
  breakdown_is_exact days category =
      let window = since now days records in
      (
        sum_by-sort_by (λ (g : Text × ℕ). g.1) largest_first (group window)
            ∙ total-group window
            ∙ ap (λ rs. count (since now days rs))
                (sym (where_like_any db_lower str_lower records)),
        sum_by-sort_by (size_of category) largest_first (group window)
            ∙ counted_as-group category window,
        sort_by-sorts largest_first (λ x y h. ground arith) (λ x y z h k. ground arith)
            (group window),
      )

  -- A search lists as many records as `count_transactions` counts under the same filters, cut at the
  -- limit; each of them passes the filters, and they come newest first.
  pub find_agrees_with_count :
      (args : FindTransactionsArgs)
      → let found = find_transactions db_lower str_lower now records args in
        (length found
          ≡ min args.limit (
              count_transactions db_lower str_lower now records
                (record { category = args.category; merchant = args.merchant; days = none })))
        × All (Fits db_lower str_lower args) found
        × IsOrdered newest_first found
  unfolding find_transactions count_transactions
  find_agrees_with_count args =
      let kept = where_like db_lower str_lower args.category args.merchant records in
      let sorted = sort_by newest_first kept in
      (
        omega (
          arith,
          length-take args.limit sorted,
          length-sort_by newest_first kept,
          count-length kept,
          ap count (since_always now kept),
        ),
        All-take (Fits db_lower str_lower args) args.limit sorted (
            All-sort_by (Fits db_lower str_lower args) newest_first kept
              (all_fit db_lower str_lower args records)),
        IsOrdered-take newest_first args.limit sorted
            (sort_by-sorts newest_first (λ x y h. ground arith) (λ x y z h k. ground arith) kept),
      )
