-- ===== src/Prelude/Sort.antt =====
-- Python's `list.sort` and SQL's ORDER BY as a stable insertion sort, by a test `before x y` that holds
-- also of equal keys.
use Prim.Native.Nat.{ℕ, zero, suc, ◌+◌}
use mathlib.Core.Path.{◌≡◌, refl, ap, ◌∙◌}
use mathlib.Core.Bool.{Bool, true, false}
use mathlib.Core.List.{List, [], ◌∷◌, ◌++◌}
use native.Mathlib.Omega.{arith}
use gen_ai_backend.Prelude.Lists.{length, take, All, All-take}
use gen_ai_backend.Prelude.Tests.{if◌then◌else◌, Bool-cases}
use mathlib.Core.Logic.{inl, inr}

module _ {ℓ} {A : Type ℓ} (before : A → A → Bool) where
  unfoldable pub insert_by : A → List A → List A
  insert_by x [] = x ∷ []
  insert_by x (y ∷ ys) = let rest = insert_by x ys in if before x y then x ∷ y ∷ ys else y ∷ rest

  unfoldable pub sort_by : List A → List A
  sort_by [] = []
  sort_by (x ∷ xs) = insert_by x (sort_by xs)

  insert_by-snoc :
      (x z : A) (ys : List A)
      → before x z ≡ true
      → insert_by x (ys ++ z ∷ []) ≡ insert_by x ys ++ z ∷ []
  unfolding insert_by
  insert_by-snoc x z [] h = rw h
  insert_by-snoc x z (y ∷ ys) h = ground (arith, insert_by-snoc x z ys h)

  -- A last row that sorts behind every other stays the last.
  pub sort_by-snoc :
      (z : A) (xs : List A)
      → All (λ x. before x z ≡ true) xs
      → sort_by (xs ++ z ∷ []) ≡ sort_by xs ++ z ∷ []
  unfolding sort_by insert_by
  sort_by-snoc z [] h = refl
  sort_by-snoc z (x ∷ xs) h =
      ap (insert_by x) (sort_by-snoc z xs h.1) ∙ insert_by-snoc x z (sort_by xs) (h.0)

  length-insert_by : (x : A) (ys : List A) → length (insert_by x ys) ≡ suc (length ys)
  unfolding insert_by
  length-insert_by x [] = refl
  length-insert_by x (y ∷ ys) = ground (arith, length-insert_by x ys)

  pub length-sort_by : (xs : List A) → length (sort_by xs) ≡ length xs
  unfolding sort_by
  length-sort_by [] = refl
  length-sort_by (x ∷ xs) = omega (arith, length-insert_by x (sort_by xs), length-sort_by xs)

module _ {ℓ κ} {A : Type ℓ} (P : A → Type κ) (before : A → A → Bool) where
  All-insert_by : (x : A) (ys : List A) → P x → All P ys → All P (insert_by before x ys)
  unfolding insert_by
  All-insert_by x [] h hs = (h, tt)
  All-insert_by x (y ∷ ys) h hs = elim (Bool-cases (before x y)) [
    | inl e ↦ rw e (h, hs)
    | inr e ↦ rw e (hs.0, All-insert_by x ys h hs.1)
  ]

  -- What holds of every row holds of every sorted row.
  pub All-sort_by : (xs : List A) → All P xs → All P (sort_by before xs)
  unfolding sort_by
  All-sort_by [] h = tt
  All-sort_by (x ∷ xs) h = All-insert_by x (sort_by before xs) h.0 (All-sort_by xs h.1)

module _ {ℓ} {A : Type ℓ} (before : A → A → Bool) where
  -- Every row may stand before each later one.
  abbrev pub IsOrdered : List A → Type 0
  IsOrdered [] = Unit
  IsOrdered (x ∷ xs) = All (λ y. before x y ≡ true) xs × IsOrdered xs

  insert_by-IsOrdered :
      (x : A) (ys : List A) → All (λ y. before x y ≡ true) ys → insert_by before x ys ≡ x ∷ ys
  unfolding insert_by
  insert_by-IsOrdered x [] h = refl
  insert_by-IsOrdered x (y ∷ ys) h = rw (h.0) refl

  -- The sort leaves rows that are in order alone.
  pub sort_by-IsOrdered : (xs : List A) → IsOrdered xs → sort_by before xs ≡ xs
  unfolding sort_by
  sort_by-IsOrdered [] h = refl
  sort_by-IsOrdered (x ∷ xs) h =
      ap (insert_by before x) (sort_by-IsOrdered xs h.1) ∙ insert_by-IsOrdered x xs h.0

module _ {ℓ} {A : Type ℓ} (before : A → A → Bool)
    (total : (x y : A) → before x y ≡ false → before y x ≡ true)
    (trans : (x y z : A) → before x y ≡ true → before y z ≡ true → before x z ≡ true) where
  all_behind :
      (x y : A) (ys : List A)
      → before x y ≡ true
      → All (λ z. before y z ≡ true) ys
      → All (λ z. before x z ≡ true) ys
  all_behind x y [] h hs = tt
  all_behind x y (z ∷ zs) h hs = (trans x y z h hs.0, all_behind x y zs h hs.1)

  insert_by-keeps :
      (x : A) (ys : List A) → IsOrdered before ys → IsOrdered before (insert_by before x ys)
  unfolding insert_by
  insert_by-keeps x [] h = (tt, tt)
  insert_by-keeps x (y ∷ ys) h = elim (Bool-cases (before x y)) [
    | inl e ↦ rw e ((e, all_behind x y ys e h.0), h)
    | inr e ↦ rw e (
      All-insert_by (λ z. before y z ≡ true) before x ys (total x y e) h.0,
      insert_by-keeps x ys h.1,
    )
  ]

  -- What the sort comes to is in order.
  pub sort_by-sorts : (xs : List A) → IsOrdered before (sort_by before xs)
  unfolding sort_by
  sort_by-sorts [] = tt
  sort_by-sorts (x ∷ xs) = insert_by-keeps x (sort_by before xs) (sort_by-sorts xs)

module _ {ℓ} {A : Type ℓ} (before : A → A → Bool) where
  pub IsOrdered-take : (n : ℕ) (xs : List A) → IsOrdered before xs → IsOrdered before (take n xs)
  IsOrdered-take zero xs h = tt
  IsOrdered-take (suc n) [] h = tt
  IsOrdered-take (suc n) (x ∷ xs) h = (All-take _ n xs h.0, IsOrdered-take n xs h.1)

module _ {ℓ} {A : Type ℓ} (weigh : A → ℕ) where
  abbrev pub sum_by : List A → ℕ
  sum_by [] = 0
  sum_by (x ∷ xs) = weigh x + sum_by xs

  sum_by-insert_by :
      (before : A → A → Bool) (x : A) (ys : List A)
      → sum_by (insert_by before x ys) ≡ weigh x + sum_by ys
  unfolding insert_by
  sum_by-insert_by before x [] = refl
  sum_by-insert_by before x (y ∷ ys) = ground (arith, sum_by-insert_by before x ys)

  -- A sort keeps every sum over the rows.
  pub sum_by-sort_by :
      (before : A → A → Bool) (xs : List A) → sum_by (sort_by before xs) ≡ sum_by xs
  unfolding sort_by
  sum_by-sort_by before [] = refl
  sum_by-sort_by before (x ∷ xs) =
      omega (arith, sum_by-insert_by before x (sort_by before xs), sum_by-sort_by before xs)
