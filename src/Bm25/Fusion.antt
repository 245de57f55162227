-- ===== src/Bm25/Fusion.antt =====
-- What the fusion of rankings makes of a key: the reference is its rank in each ranking.
use gen_ai_backend.Prelude.{
  ℕ, suc, ◌≡◌, refl, ap, ◌∙◌, ◌≢◌, true, false, Bool-cases, inl, inr, ◌==◌, Option, none, some,
  List, [], ◌∷◌, All, arith, if◌then◌else◌,
}
use gen_ai_backend.Floats.{Floats, zero_f}
use gen_ai_backend.Bm25.{weight, bump, fuse_ranking, fuse_all, rrf_fuse}

abbrev pub Avoids : ℕ → List ℕ → Type 0
Avoids k xs = All (λ x. k ≢ x) xs

-- No key twice.
abbrev pub Distinct : List ℕ → Type 0
Distinct [] = Unit
Distinct (x ∷ xs) = Avoids x xs × Distinct xs

-- The rank of a key in a ranking that starts at `rank`.
abbrev pub rank_of : ℕ → ℕ → List ℕ → Option ℕ
rank_of rank key [] = none
rank_of rank key (k ∷ ks) = if k == key then some rank else rank_of (suc rank) key ks

abbrev pub fused_score {ℓ} : {S : Type ℓ} → ℕ → List (ℕ × S) → Option S
fused_score key [] = none
fused_score key ((k, s) ∷ rest) = if k == key then some s else fused_score key rest

rank_of-Avoids : (rank key : ℕ) (ks : List ℕ) → Avoids key ks → rank_of rank key ks ≡ none
rank_of-Avoids rank key [] h = refl
rank_of-Avoids rank key (k ∷ ks) h = ground (arith, h.0, rank_of-Avoids (suc rank) key ks h.1)

eq_of_test : (k j : ℕ) → (k == j) ≡ true → k ≡ j
eq_of_test k j h = ground arith

module _ (fl : Floats) where
  open fl use {F, add}

  -- A score, and what a rank adds to it.
  abbrev pub with_rank : Option F → Option ℕ → Option F
  with_rank score none = score
  with_rank none (some rank) = some (add (zero_f fl) (weight fl rank))
  with_rank (some s) (some rank) = some (add s (weight fl rank))

  bumped : ℕ → ℕ → F → List (ℕ × F) → Option F
  bumped key k w fused = fused_score key (bump fl k w fused)

  score-bump_self :
      (key rank : ℕ) (fused : List (ℕ × F))
      → fused_score key (bump fl key (weight fl rank) fused)
        ≡ with_rank (fused_score key fused) (some rank)
  unfolding bump
  score-bump_self key rank [] = ground arith
  score-bump_self key rank ((k, s) ∷ rest) = elim (Bool-cases (k == key)) [
    | inl y ↦ rw (y, y) refl
    | inr n ↦ rw (n, n) (score-bump_self key rank rest)
  ]

  score-bump_other :
      (key k : ℕ) (w : F) (fused : List (ℕ × F))
      → (k == key) ≡ false
      → fused_score key (bump fl k w fused) ≡ fused_score key fused
  unfolding bump
  score-bump_other key k w [] h = rw h refl
  score-bump_other key k w ((j, s) ∷ rest) h = elim (Bool-cases (j == k)) [
    | inl y ↦ rw (eq_of_test j k y) (ground (arith, h))
    | inr n ↦ rw n (elim (Bool-cases (j == key)) [
      | inl y ↦ rw y refl
      | inr m ↦ rw m (score-bump_other key k w rest h)
    ])
  ]

  score-fuse_ranking :
      (rank key : ℕ) (ks : List ℕ) (fused : List (ℕ × F))
      → Distinct ks
      → fused_score key (fuse_ranking fl rank ks fused)
        ≡ with_rank (fused_score key fused) (rank_of rank key ks)
  unfolding fuse_ranking
  score-fuse_ranking rank key [] fused h = refl
  score-fuse_ranking rank key (k ∷ ks) fused h = elim (Bool-cases (k == key)) [
    | inl y ↦
        rw (y, eq_of_test k key y)
          (score-fuse_ranking (suc rank) key ks (bump fl key (weight fl rank) fused) h.1
            ∙ rw (rank_of-Avoids (suc rank) key ks (rw (eq_of_test k key y) at h.0))
                (score-bump_self key rank fused))
    | inr n ↦ rw n (
        score-fuse_ranking (suc rank) key ks (bump fl k (weight fl rank) fused) h.1
        ∙ ap (λ s. with_rank s (rank_of (suc rank) key ks))
            (score-bump_other key k (weight fl rank) fused n))
  ]

  -- Of two rankings with no key twice, the fused score of a key is the sum of what its rank in each of
  -- them is worth, an absence adding nothing, and a key in neither has no score.
  pub fusion_adds_ranks :
      (dense lexical : List ℕ) (key : ℕ)
      → Distinct dense
      → Distinct lexical
      → fused_score key (rrf_fuse fl (dense ∷ lexical ∷ []))
        ≡ with_rank (with_rank none (rank_of 0 key dense)) (rank_of 0 key lexical)
  unfolding rrf_fuse fuse_all
  fusion_adds_ranks dense lexical key hd hl =
      score-fuse_ranking 0 key lexical (fuse_ranking fl 0 dense []) hl
      ∙ ap (λ s. with_rank s (rank_of 0 key lexical)) (score-fuse_ranking 0 key dense [] hd)
