-- ===== src/Rag/Weights.antt =====
-- The fusion of one ranking keeps its order.
use mathlib.Core.List.{append_assoc, append-nil}
use gen_ai_backend.Prelude.{
  ℕ, zero, suc, ◌≤◌, ◌≡◌, refl, ap, sym, ◌∙◌, ◌≢◌, Bool, true, false, not, ◌==◌, List, [], ◌∷◌,
  ◌++◌, All, All-append, take, arith,
}
use gen_ai_backend.Prelude.Sort.{sort_by, IsOrdered, sort_by-IsOrdered}
use gen_ai_backend.Floats.{Floats, zero_f}
use gen_ai_backend.Bm25.{weight, bump, fuse_ranking, fuse_all, rrf_fuse}
use gen_ai_backend.Bm25.Fusion.{Avoids, Distinct}
use gen_ai_backend.Rag.{hybrid_rank}
use gen_ai_backend.Rag.Distinct.{firsts}

module _ (fl : Floats) where
  open fl use {F, add, lt}

  -- A ranking as a dict, each key with the weight of its rank.
  abbrev weighted : ℕ → List ℕ → List (ℕ × F)
  weighted rank [] = []
  weighted rank (k ∷ ks) = (k, add (zero_f fl) (weight fl rank)) ∷ weighted (suc rank) ks

  abbrev NotIn : List (ℕ × F) → ℕ → Type 0
  NotIn fused k = All (λ (e : ℕ × F). k ≢ e.0) fused

  bump_new :
      (k : ℕ) (w : F) (fused : List (ℕ × F))
      → NotIn fused k
      → bump fl k w fused ≡ fused ++ (k, add (zero_f fl) w) ∷ []
  unfolding bump
  bump_new k w [] h = refl
  bump_new k w ((j, s) ∷ rest) h =
      let other : (j == k) ≡ false = ground (arith, h.0) in
      rw other (ap (λ t. (j, s) ∷ t) (bump_new k w rest h.1))

  fuse_new :
      (rank : ℕ) (ks : List ℕ) (fused : List (ℕ × F))
      → Distinct ks
      → All (NotIn fused) ks
      → fuse_ranking fl rank ks fused ≡ fused ++ weighted rank ks
  unfolding fuse_ranking
  fuse_new rank [] fused d h = sym (append-nil fused)
  fuse_new rank (k ∷ ks) fused d h =
      let w = weight fl rank in
      let entry : ℕ × F = (k, add (zero_f fl) w) in
      let apart : All (NotIn (fused ++ entry ∷ [])) ks = zip_all ks h.1 d.0 in
      ap (fuse_ranking fl (suc rank) ks) (bump_new k w fused h.0)
      ∙ fuse_new (suc rank) ks (fused ++ entry ∷ []) d.1 apart
      ∙ append_assoc fused (entry ∷ []) (weighted (suc rank) ks)
    where
      zip_all :
          (js : List ℕ)
          → All (NotIn fused) js
          → Avoids k js
          → All (NotIn (fused ++ (k, add (zero_f fl) (weight fl rank)) ∷ [])) js
      zip_all [] g a = tt
      zip_all (j ∷ js) g a = (
        All-append (λ (e : ℕ × F). j ≢ e.0) fused _ g.0 ((λ p. a.0 (sym p)), tt),
        zip_all js g.1 a.1,
      )

  firsts-weighted : (rank k : ℕ) (ks : List ℕ) → firsts (take k (weighted rank ks)) ≡ take k ks
  firsts-weighted rank zero ks = refl
  firsts-weighted rank (suc k) [] = refl
  firsts-weighted rank (suc k) (j ∷ js) = ap (λ t. j ∷ t) (firsts-weighted (suc rank) k js)

  abbrev score_falls : ℕ × F → ℕ × F → Bool
  score_falls a b = not (lt a.1 b.1)

  -- A later rank is not worth more: 1 / (60 + rank + 1) falls.
  abbrev pub IsFalling : Type 0
  IsFalling =
      (i j : ℕ) → i ≤ j → lt (add (zero_f fl) (weight fl i)) (add (zero_f fl) (weight fl j)) ≡ false

  later_falls :
      IsFalling
      → (i rank k : ℕ) (ks : List ℕ) → i ≤ rank
      → All (λ e. score_falls (k, add (zero_f fl) (weight fl i)) e ≡ true) (weighted rank ks)
  later_falls falling i rank k [] h = tt
  later_falls falling i rank k (j ∷ js) h =
      (rw (falling i rank h) refl, later_falls falling i (suc rank) k js (omega arith))

  weighted-IsOrdered :
      IsFalling → (rank : ℕ) (ks : List ℕ) → IsOrdered score_falls (weighted rank ks)
  weighted-IsOrdered falling rank [] = tt
  weighted-IsOrdered falling rank (k ∷ ks) = (
    later_falls falling rank (suc rank) k ks (omega arith),
    weighted-IsOrdered falling (suc rank) ks,
  )

  none_in_nil : (ks : List ℕ) → All (NotIn []) ks
  none_in_nil [] = tt
  none_in_nil (k ∷ ks) = (tt, none_in_nil ks)

  pub lexical_alone :
      IsFalling
      → (k : ℕ) (lexical : List ℕ) → Distinct lexical
      → firsts (hybrid_rank fl [] lexical k) ≡ take k lexical
  unfolding hybrid_rank rrf_fuse fuse_all fuse_ranking
  lexical_alone falling k lexical d =
      let fused : fuse_ranking fl 0 lexical [] ≡ weighted 0 lexical =
        fuse_new 0 lexical [] d (none_in_nil lexical) in
      let sorted : sort_by score_falls (weighted 0 lexical) ≡ weighted 0 lexical =
        sort_by-IsOrdered score_falls (weighted 0 lexical) (weighted-IsOrdered falling 0 lexical) in
      ap (λ t. firsts (take k (sort_by score_falls t))) fused
      ∙ ap (λ t. firsts (take k t)) sorted
      ∙ firsts-weighted 0 k lexical
