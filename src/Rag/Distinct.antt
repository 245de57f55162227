-- ===== src/Rag/Distinct.antt =====
-- Keys stay distinct, and within what they were taken from, through fusing, sorting and cutting.
use gen_ai_backend.Prelude.{
  ℕ, zero, suc, sym, ◌≢◌, Bool, Bool-cases, inl, inr, ◌==◌, List, [], ◌∷◌, All, All-take, take,
  arith,
}
use gen_ai_backend.Prelude.Sort.{insert_by, sort_by, All-sort_by}
use gen_ai_backend.Floats.{Floats}
use gen_ai_backend.Bm25.{weight, bump, fuse_ranking, fuse_all, rrf_fuse}

-- The keys of scored entries.
abbrev pub firsts {ℓ} : {S : Type ℓ} → List (ℕ × S) → List ℕ
firsts [] = []
firsts ((k, s) ∷ rest) = k ∷ firsts rest

module _ {ℓ} {A : Type ℓ} (key : A → ℕ) where
  abbrev pub AvoidsAll : A → List A → Type 0
  AvoidsAll a xs = All (λ x. key a ≢ key x) xs

  -- No two entries of one key.
  abbrev pub DistinctBy : List A → Type 0
  DistinctBy [] = Unit
  DistinctBy (x ∷ xs) = AvoidsAll x xs × DistinctBy xs

  pub DistinctBy-take : (n : ℕ) (xs : List A) → DistinctBy xs → DistinctBy (take n xs)
  DistinctBy-take zero xs h = tt
  DistinctBy-take (suc n) [] h = tt
  DistinctBy-take (suc n) (x ∷ xs) h =
      (All-take (λ y. key x ≢ key y) n xs h.0, DistinctBy-take n xs h.1)

  AvoidsAll-insert_by :
      (before : A → A → Bool) (z x : A) (ys : List A)
      → key z ≢ key x
      → AvoidsAll z ys
      → AvoidsAll z (insert_by before x ys)
  unfolding insert_by
  AvoidsAll-insert_by before z x [] h hs = (h, tt)
  AvoidsAll-insert_by before z x (y ∷ ys) h hs = elim (Bool-cases (before x y)) [
    | inl e ↦ rw e (h, hs)
    | inr e ↦ rw e (hs.0, AvoidsAll-insert_by before z x ys h hs.1)
  ]

  DistinctBy-insert_by :
      (before : A → A → Bool) (x : A) (ys : List A)
      → AvoidsAll x ys
      → DistinctBy ys
      → DistinctBy (insert_by before x ys)
  unfolding insert_by
  DistinctBy-insert_by before x [] h hs = (tt, tt)
  DistinctBy-insert_by before x (y ∷ ys) h hs = elim (Bool-cases (before x y)) [
    | inl e ↦ rw e (h, hs)
    | inr e ↦ rw e (
      AvoidsAll-insert_by before y x ys (λ p. h.0 (sym p)) hs.0,
      DistinctBy-insert_by before x ys h.1 hs.1,
    )
  ]

  pub DistinctBy-sort_by :
      (before : A → A → Bool) (xs : List A) → DistinctBy xs → DistinctBy (sort_by before xs)
  unfolding sort_by
  DistinctBy-sort_by before [] h = tt
  DistinctBy-sort_by before (x ∷ xs) h =
      DistinctBy-insert_by before x (sort_by before xs)
        (All-sort_by (λ y. key x ≢ key y) before xs h.0) (DistinctBy-sort_by before xs h.1)

module _ (fl : Floats) where
  open fl use {F}

  abbrev pub key_of : ℕ × F → ℕ
  key_of e = e.0

  All-bump {κ} :
      (P : ℕ → Type κ) (k : ℕ) (w : F) (fused : List (ℕ × F))
      → P k
      → All (λ (e : ℕ × F). P e.0) fused
      → All (λ (e : ℕ × F). P e.0) (bump fl k w fused)
  unfolding bump
  All-bump P k w [] h hs = (h, tt)
  All-bump P k w ((j, s) ∷ rest) h hs = elim (Bool-cases (j == k)) [
    | inl e ↦ rw e hs
    | inr e ↦ rw e (hs.0, All-bump P k w rest h hs.1)
  ]

  pub All-fuse_ranking {κ} :
      (P : ℕ → Type κ) (rank : ℕ) (ks : List ℕ) (fused : List (ℕ × F))
      → All P ks
      → All (λ (e : ℕ × F). P e.0) fused
      → All (λ (e : ℕ × F). P e.0) (fuse_ranking fl rank ks fused)
  unfolding fuse_ranking
  All-fuse_ranking P rank [] fused h hs = hs
  All-fuse_ranking P rank (k ∷ ks) fused h hs =
      All-fuse_ranking P (suc rank) ks (bump fl k (weight fl rank) fused) h.1
        (All-bump P k (weight fl rank) fused h.0 hs)

  Distinct-bump :
      (k : ℕ) (w : F) (fused : List (ℕ × F))
      → DistinctBy key_of fused
      → DistinctBy key_of (bump fl k w fused)
  unfolding bump
  Distinct-bump k w [] h = (tt, tt)
  Distinct-bump k w ((j, s) ∷ rest) h = elim (Bool-cases (j == k)) [
    | inl e ↦ rw e h
    | inr e ↦
        rw e (
          All-bump (λ i. j ≢ i) k w rest (λ p. ground (arith, p, e)) h.0,
          Distinct-bump k w rest h.1,
        )
  ]

  pub Distinct-fuse_ranking :
      (rank : ℕ) (ks : List ℕ) (fused : List (ℕ × F))
      → DistinctBy key_of fused
      → DistinctBy key_of (fuse_ranking fl rank ks fused)
  unfolding fuse_ranking
  Distinct-fuse_ranking rank [] fused h = h
  Distinct-fuse_ranking rank (k ∷ ks) fused h =
      Distinct-fuse_ranking (suc rank) ks (bump fl k (weight fl rank) fused)
        (Distinct-bump k (weight fl rank) fused h)

  -- The fusion of two rankings has no key twice, and only keys of the rankings.
  pub rrf_fuse-Distinct :
      (dense lexical : List ℕ) → DistinctBy key_of (rrf_fuse fl (dense ∷ lexical ∷ []))
  unfolding rrf_fuse fuse_all
  rrf_fuse-Distinct dense lexical =
      Distinct-fuse_ranking 0 lexical (fuse_ranking fl 0 dense [])
        (Distinct-fuse_ranking 0 dense [] tt)

  pub All-rrf_fuse {κ} :
      (P : ℕ → Type κ) (dense lexical : List ℕ)
      → All P dense
      → All P lexical
      → All (λ (e : ℕ × F). P e.0) (rrf_fuse fl (dense ∷ lexical ∷ []))
  unfolding rrf_fuse fuse_all
  All-rrf_fuse P dense lexical hd hl =
      All-fuse_ranking P 0 lexical (fuse_ranking fl 0 dense []) hl
        (All-fuse_ranking P 0 dense [] hd tt)
