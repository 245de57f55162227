-- ===== src/EnrichRoute/Batch.antt =====
-- A batch answers each of its items by itself.
use gen_ai_backend.Prelude.{ℕ, ◌+◌, ◌≤◌, ◌≡◌, refl, ap, List, [], ◌∷◌, length, arith}
use gen_ai_backend.Prelude.Text.{Text}
use gen_ai_backend.Errors.{Attempt}
use gen_ai_backend.EnrichRoute.{BatchItemResult, batch_items, count_succeeded, enrich_batch_inner}

module _ {A : Type 0} where
  abbrev pub items_of : List (BatchItemResult A) → List (Text × Attempt A)
  items_of [] = []
  items_of (r ∷ rs) = (r.narration, r.item) ∷ items_of rs

  items_of-batch_items :
      (i : ℕ) (items : List (Text × Attempt A)) → items_of (batch_items i items) ≡ items
  items_of-batch_items i [] = refl
  items_of-batch_items i (x ∷ xs) = ap (λ t. x ∷ t) (items_of-batch_items (i + 1) xs)

  length-batch_items :
      (i : ℕ) (items : List (Text × Attempt A)) → length (batch_items i items) ≡ length items
  length-batch_items i [] = refl
  length-batch_items i (x ∷ xs) = omega (arith, length-batch_items (i + 1) xs)

  count_at_most : (rs : List (BatchItemResult A)) → count_succeeded rs ≤ length rs
  count_at_most [] = omega arith
  count_at_most (r ∷ rs) = ground (arith, count_at_most rs)

  -- A batch answers each narration in order with what its own work came to, whatever the other items
  -- came to, and its counts add up to its size.
  pub batch_isolates :
      (items : List (Text × Attempt A))
      → let response = enrich_batch_inner items in
        (items_of response.results ≡ items)
        × (response.succeeded + response.failed ≡ response.total)
        × (response.total ≡ length items)
  unfolding enrich_batch_inner
  batch_isolates items =
      let results = batch_items 0 items in
      (
        items_of-batch_items 0 items,
        omega (arith, count_at_most results),
        length-batch_items 0 items,
      )
