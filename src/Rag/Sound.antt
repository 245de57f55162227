-- ===== src/Rag/Sound.antt =====
-- A hybrid retrieval always comes to rows of the table, none twice, and no more than asked for.
use gen_ai_backend.Prelude.{
  ℕ, ◌≤◌, ◌≡◌, refl, ap, ◌≢◌, Bool, not, Bool-cases, inl, inr, ◌==◌, Option, none, some, List, [],
  ◌∷◌, All, All-take, All-map, take, length, length-take, Option-cases, arith,
}
use gen_ai_backend.Prelude.Text.{Text}
use gen_ai_backend.Prelude.Sort.{sort_by, All-sort_by}
use gen_ai_backend.Floats.{Floats, zero_f}
use gen_ai_backend.Bm25.{scores, rrf_fuse}
use gen_ai_backend.Bm25.Fusion.{Avoids, Distinct}
use gen_ai_backend.Rag.{
  Row, by_id, looked_up, hybrid, hybrid_rank, best, keys, ids, by_score, zip_positive, texts,
  lexical_ranked, dense_scored, dense_search, dense_ranked, cosine_similarity,
}
use gen_ai_backend.Rag.Distinct.{
  firsts, DistinctBy, DistinctBy-sort_by, DistinctBy-take, key_of, rrf_fuse-Distinct, All-rrf_fuse,
}

module _ (fl : Floats) {A : Type 0} (row : Row (fl.F) A) where
  open fl use {F, lt, le}

  -- Some row of the table has the key.
  abbrev pub IsKeyOf : List A → ℕ → Type 0
  IsKeyOf candidates key = (a : A) × (by_id fl row key candidates ≡ some a)

  abbrev pub HasRow : List A → A → Type 0
  HasRow candidates a = IsKeyOf candidates (row.id a)

  by_id-id : (key : ℕ) (rows : List A) (a : A) → by_id fl row key rows ≡ some a → row.id a ≡ key
  by_id-id key [] a h = absurd (let wrong : none ≡ some a = h in cc)
  by_id-id key (x ∷ xs) a h = elim (Bool-cases (row.id x == key)) [
    | inl y ↦
        let e : some x ≡ some a = rw y at h in let e' : x ≡ a = cc e in rw (← e') (ground arith)
    | inr n ↦ by_id-id key xs a (rw n at h)
  ]

  abbrev pub found_ids : List (F × A) → List ℕ
  found_ids [] = []
  found_ids ((s, a) ∷ rest) = row.id a ∷ found_ids rest

  -- A lookup of ranked keys that have rows comes to those rows, in that order.
  pub looked_up_total :
      (candidates : List A) (ranked : List (ℕ × F))
      → All (λ (e : ℕ × F). IsKeyOf candidates e.0) ranked
      → (found : List (F × A)) × (looked_up fl row candidates ranked ≡ some found)
        × (found_ids found ≡ firsts ranked)
        × All (λ (e : F × A). by_id fl row (row.id e.1) candidates ≡ some e.1) found
  looked_up_total candidates [] h = ([], refl, refl, tt)
  looked_up_total candidates ((key, s) ∷ rest) h =
      let (a, e) = h.0 in
      let (found, eq, same, rows) = looked_up_total candidates rest h.1 in
      let own : row.id a ≡ key = by_id-id key candidates a e in
      ((s, a) ∷ found, rw (e, eq) refl, rw (own, same) refl, (rw own e, rows))

  HasRow-cons : (x : A) (rows : List A) (a : A) → HasRow rows a → HasRow (x ∷ rows) a
  HasRow-cons x rows a h = elim (Bool-cases (row.id x == row.id a)) [
    | inl y ↦ (x, rw y refl)
    | inr n ↦ (h.0, rw n (h.1))
  ]

  pub all_rows : (rows : List A) → All (HasRow rows) rows
  all_rows [] = tt
  all_rows (a ∷ rows) = ((a, ground arith), All-map (HasRow-cons a rows) rows (all_rows rows))

  module _ (candidates : List A) where
    zip_positive-IsKeyOf :
        (ss : List F) (rows : List A)
        → All (HasRow candidates) rows
        → All (λ (e : F × ℕ). IsKeyOf candidates e.1) (zip_positive fl row ss rows)
    zip_positive-IsKeyOf [] rows h = tt
    zip_positive-IsKeyOf (s ∷ ss) [] h = tt
    zip_positive-IsKeyOf (s ∷ ss) (a ∷ rows) h = elim (Bool-cases (lt (zero_f fl) s)) [
      | inl y ↦ rw y (h.0, zip_positive-IsKeyOf ss rows h.1)
      | inr n ↦ rw n (zip_positive-IsKeyOf ss rows h.1)
    ]

    dense_scored-HasRow :
        (query : List F) (floor : F) (rows : List A)
        → All (HasRow candidates) rows
        → All (λ (e : F × A). HasRow candidates e.1) (dense_scored fl row query floor rows)
    unfolding dense_scored
    dense_scored-HasRow query floor [] h = tt
    dense_scored-HasRow query floor (a ∷ rows) h =
        let rest = dense_scored-HasRow query floor rows h.1 in
        elim (Option-cases (row.embedding a)) [
          | inl e ↦ rw e rest
          | inr (v, e) ↦ rw e (elim (Bool-cases (le floor (cosine_similarity fl query v))) [
            | inl y ↦ rw y (h.0, rest)
            | inr n ↦ rw n rest
          ])
        ]

  All-best {κ} :
      {B : Type 0} (P : F × B → Type κ) (k : ℕ) (scored : List (F × B))
      → All P scored
      → All P (best fl k scored)
  unfolding best
  All-best P k scored h = All-take P k _ (All-sort_by P (by_score lt) scored h)

  All-keys {κ} :
      {B : Type 0} (P : B → Type κ) (scored : List (F × B))
      → All (λ (e : F × B). P e.1) scored
      → All P (keys scored)
  All-keys P [] h = tt
  All-keys P ((s, b) ∷ rest) h = (h.0, All-keys P rest h.1)

  All-ids {κ} :
      (P : ℕ → Type κ) (rows : List A) → All (λ a. P (row.id a)) rows → All P (ids fl row rows)
  All-ids P [] h = tt
  All-ids P (a ∷ rows) h = (h.0, All-ids P rows h.1)

  pub lexical-IsKeyOf :
      (lower : Text → Text) (query : Text) (k : ℕ) (candidates : List A)
      → All (IsKeyOf candidates) (lexical_ranked fl row lower query k candidates)
  unfolding lexical_ranked
  lexical-IsKeyOf lower query k candidates = All-keys (IsKeyOf candidates) _ (
      All-best (λ e. IsKeyOf candidates e.1) k _
        (zip_positive-IsKeyOf candidates (scores fl lower (texts fl row candidates) query)
          candidates (all_rows candidates)))

  dense-IsKeyOf :
      (query : Option (List F)) (k : ℕ) (floor : F) (rows candidates : List A)
      → All (HasRow candidates) rows
      → All (IsKeyOf candidates) (dense_ranked fl row query k floor rows)
  unfolding dense_search
  dense-IsKeyOf none k floor rows candidates h = tt
  dense-IsKeyOf (some query) k floor rows candidates h = All-ids (IsKeyOf candidates) _ (
      All-keys (HasRow candidates) _ (
        All-best (λ e. HasRow candidates e.1) k _
          (dense_scored-HasRow candidates query floor rows h)))

  -- What a retrieval of at most `k` rows comes to.
  pub record IsSound (k : ℕ) (candidates : List A) (found : List (F × A)) : Type 0 where
    pub bounded : length found ≤ k
    pub rows : All (λ (e : F × A). by_id fl row (row.id e.1) candidates ≡ some e.1) found
    pub distinct : Distinct (found_ids found)

  length-found_ids : (found : List (F × A)) → length (found_ids found) ≡ length found
  length-found_ids [] = refl
  length-found_ids ((s, a) ∷ rest) = omega (arith, length-found_ids rest)

  length-firsts : (ranked : List (ℕ × F)) → length (firsts ranked) ≡ length ranked
  length-firsts [] = refl
  length-firsts ((key, s) ∷ rest) = omega (arith, length-firsts rest)

  Avoids-firsts :
      (key : ℕ) (ranked : List (ℕ × F))
      → All (λ (e : ℕ × F). key ≢ e.0) ranked
      → Avoids key (firsts ranked)
  Avoids-firsts key [] h = tt
  Avoids-firsts key ((j, s) ∷ rest) h = (h.0, Avoids-firsts key rest h.1)

  Distinct-firsts :
      (ranked : List (ℕ × F)) → DistinctBy (key_of fl) ranked → Distinct (firsts ranked)
  Distinct-firsts [] h = tt
  Distinct-firsts ((key, s) ∷ rest) h = (Avoids-firsts key rest h.0, Distinct-firsts rest h.1)

  pub hybrid-IsSound :
      (lower : Text → Text) (query_text : Text) (query : Option (List F)) (k : ℕ) (floor : F)
      (dense_rows candidates : List A)
      → All (HasRow candidates) dense_rows
      → (found : List (F × A)) × (hybrid fl row lower query_text query k floor dense_rows candidates
          ≡ some found)
        × IsSound k candidates found
  unfolding hybrid hybrid_rank
  hybrid-IsSound lower query_text query k floor dense_rows candidates h =
      let dense = dense_ranked fl row query k floor dense_rows in
      let lexical = lexical_ranked fl row lower query_text k candidates in
      let fused = rrf_fuse fl (dense ∷ lexical ∷ []) in
      let before : ℕ × F → ℕ × F → Bool = λ a b. not (lt a.1 b.1) in
      let ranked = take k (sort_by before fused) in
      let has_rows : All (λ (e : ℕ × F). IsKeyOf candidates e.0) ranked =
        All-take (λ (e : ℕ × F). IsKeyOf candidates e.0) k _
          (All-sort_by (λ (e : ℕ × F). IsKeyOf candidates e.0) before fused
            (All-rrf_fuse fl (IsKeyOf candidates) dense lexical
              (dense-IsKeyOf query k floor dense_rows candidates h)
              (lexical-IsKeyOf lower query_text k candidates))) in
      let distinct : DistinctBy (key_of fl) ranked =
        DistinctBy-take (key_of fl) k _
          (DistinctBy-sort_by (key_of fl) before fused (rrf_fuse-Distinct fl dense lexical)) in
      let (found, eq, same, rows) = looked_up_total candidates ranked has_rows in
      (
        found,
        eq,
        record {
          bounded = omega (
            arith,
            length-found_ids found,
            length-firsts ranked,
            ap length same,
            length-take k (sort_by before fused),
          );
          rows = rows;
          distinct = rw same (Distinct-firsts ranked distinct);
        },
      )
