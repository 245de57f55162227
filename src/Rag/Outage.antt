-- ===== src/Rag/Outage.antt =====
-- Without an embedding of the query, the hybrid is the lexical ranking.
use gen_ai_backend.Prelude.{
  ℕ, ◌≡◌, refl, ◌∙◌, ◌≢◌, Bool-cases, inl, inr, none, some, List, [], ◌∷◌, All, take, take_all,
  length, length-take, arith,
}
use gen_ai_backend.Prelude.Text.{Text}
use gen_ai_backend.Prelude.Sort.{sort_by}
use gen_ai_backend.Floats.{Floats, zero_f}
use gen_ai_backend.Bm25.{scores}
use gen_ai_backend.Bm25.Fusion.{Avoids, Distinct}
use gen_ai_backend.Rag.{
  Row, hybrid, hybrid_rank, best, keys, by_score, zip_positive, texts, lexical_ranked,
}
use gen_ai_backend.Rag.Distinct.{firsts, DistinctBy, AvoidsAll, DistinctBy-sort_by, DistinctBy-take}
use gen_ai_backend.Rag.Weights.{IsFalling, lexical_alone}
use gen_ai_backend.Rag.Sound.{IsKeyOf, found_ids, looked_up_total, lexical-IsKeyOf}

module _ (fl : Floats) where
  open fl use {F, add, lt}

  All-firsts {κ} :
      (P : ℕ → Type κ) (ranked : List (ℕ × F))
      → All P (firsts ranked)
      → All (λ (e : ℕ × F). P e.0) ranked
  All-firsts P [] h = tt
  All-firsts P ((k, s) ∷ rest) h = (h.0, All-firsts P rest h.1)

  module _ {A : Type 0} (row : Row F A) where
    zip-AvoidsAll :
        (s : F) (key : ℕ) (ss : List F) (rows : List A)
        → All (λ a. key ≢ row.id a) rows
        → AvoidsAll (λ (e : F × ℕ). e.1) (s, key) (zip_positive fl row ss rows)
    zip-AvoidsAll s key [] rows h = tt
    zip-AvoidsAll s key (x ∷ ss) [] h = tt
    zip-AvoidsAll s key (x ∷ ss) (a ∷ rows) h = elim (Bool-cases (lt (zero_f fl) x)) [
      | inl y ↦ rw y (h.0, zip-AvoidsAll s key ss rows h.1)
      | inr n ↦ rw n (zip-AvoidsAll s key ss rows h.1)
    ]

    zip-DistinctBy :
        (ss : List F) (rows : List A)
        → DistinctBy row.id rows
        → DistinctBy (λ (e : F × ℕ). e.1) (zip_positive fl row ss rows)
    zip-DistinctBy [] rows h = tt
    zip-DistinctBy (x ∷ ss) [] h = tt
    zip-DistinctBy (x ∷ ss) (a ∷ rows) h = elim (Bool-cases (lt (zero_f fl) x)) [
      | inl y ↦ rw y (zip-AvoidsAll x (row.id a) ss rows h.0, zip-DistinctBy ss rows h.1)
      | inr n ↦ rw n (zip-DistinctBy ss rows h.1)
    ]

    Avoids-keys :
        (e : F × ℕ) (scored : List (F × ℕ))
        → AvoidsAll (λ (e : F × ℕ). e.1) e scored
        → Avoids e.1 (keys scored)
    Avoids-keys e [] h = tt
    Avoids-keys e ((s, k) ∷ rest) h = (h.0, Avoids-keys e rest h.1)

    Distinct-keys :
        (scored : List (F × ℕ)) → DistinctBy (λ (e : F × ℕ). e.1) scored → Distinct (keys scored)
    Distinct-keys [] h = tt
    Distinct-keys ((s, k) ∷ rest) h = (Avoids-keys (s, k) rest h.0, Distinct-keys rest h.1)

    lexical-Distinct :
        (lower : Text → Text) (query : Text) (k : ℕ) (candidates : List A)
        → DistinctBy row.id candidates
        → Distinct (lexical_ranked fl row lower query k candidates)
    unfolding lexical_ranked best
    lexical-Distinct lower query k candidates h = Distinct-keys _ (
        DistinctBy-take (λ (e : F × ℕ). e.1) k _
          (DistinctBy-sort_by (λ (e : F × ℕ). e.1) (by_score lt) _
            (zip-DistinctBy (scores fl lower (texts fl row candidates) query) candidates h)))

    length-keys : (scored : List (F × ℕ)) → length (keys scored) ≡ length scored
    length-keys [] = refl
    length-keys ((s, k) ∷ rest) = omega (arith, length-keys rest)

    take_lexical :
        (lower : Text → Text) (query : Text) (k : ℕ) (candidates : List A)
        → take k (lexical_ranked fl row lower query k candidates)
          ≡ lexical_ranked fl row lower query k candidates
    unfolding lexical_ranked best
    take_lexical lower query k candidates =
        let scored =
          zip_positive fl row (scores fl lower (texts fl row candidates) query) candidates in
        let sorted = sort_by (by_score lt) scored in
        take_all k _ (omega (arith, length-keys (take k sorted), length-take k sorted))

    -- With no embedding of the query, as in an outage of the embedding provider, the hybrid of a table
    -- with distinct ids still comes to rows, and they are exactly those of the lexical ranking, in
    -- its order. What the weight of a rank is does not matter, as long as it does not grow.
    pub outage_keeps_lexical :
        (lower : Text → Text) (query_text : Text) (k : ℕ) (floor : F)
        (dense_rows candidates : List A)
        → DistinctBy row.id candidates
        → IsFalling fl
        → (found : List (F × A)) × (hybrid fl row lower query_text none k floor dense_rows
              candidates
            ≡ some found)
          × (found_ids fl row found ≡ lexical_ranked fl row lower query_text k candidates)
    unfolding hybrid
    outage_keeps_lexical lower query_text k floor dense_rows candidates distinct falling =
        let lexical = lexical_ranked fl row lower query_text k candidates in
        let ranked = hybrid_rank fl [] lexical k in
        let order : firsts ranked ≡ lexical =
          lexical_alone fl falling k lexical
            (lexical-Distinct lower query_text k candidates distinct)
          ∙ take_lexical lower query_text k candidates in
        let has_rows : All (λ (e : ℕ × F). IsKeyOf fl row candidates e.0) ranked =
          All-firsts (IsKeyOf fl row candidates) ranked
            (rw order (lexical-IsKeyOf fl row lower query_text k candidates)) in
        let (found, eq, same, rows) = looked_up_total fl row candidates ranked has_rows in
        (found, eq, same ∙ order)
