-- ===== src/Rag.antt =====
-- narration-enrichment/src/narration_enrichment/rag.py: dense and hybrid retrieval. An embedding is its list of
-- floats, as stored. The two hybrids are one function over rows that have an id, a text and an
-- embedding, and so are the two dense searches.
pub mod Distinct
pub mod Sound
pub mod Weights
pub mod Retrieval
mod Examples
pub mod Outage
use gen_ai_backend.Prelude.{
  ℕ, zero, suc, String, Bool, true, false, not, ◌&&◌, ◌||◌, ◌==◌, Option, none, some, List, [], ◌∷◌,
  take, map, if◌then◌else◌,
}
use gen_ai_backend.Prelude.Text.{Text}
use gen_ai_backend.Prelude.Sort.{sort_by}
use gen_ai_backend.Errors.{Raised, Attempt, returned, raised, is_transient_provider_error}
use mathlib.Core.Option
use gen_ai_backend.Floats.{Floats, zero_f}
use gen_ai_backend.Bm25.{scores, rrf_fuse}
use gen_ai_backend.Enrichments.{EnrichmentRecord, list_records_with_embeddings}
use gen_ai_backend.PolicyStore.{PolicyChunk, list_policy_chunks_with_embeddings}

-- `embed_text` behind its retry, with as many attempts left after this one; `embed` is the provider's
-- answer to the attempt with that many left.
unfoldable embed_text : {V : Type 0} → (ℕ → Attempt V) → ℕ → Attempt V
embed_text embed zero = embed zero
embed_text embed (suc n) = elim (embed (suc n)) [
  | returned v ↦ returned v
  | raised e ↦
      let again = embed_text embed n in if is_transient_provider_error e then again else raised e
]

-- What a row is to retrieval.
pub record Row (F : Type 0) (A : Type 0) : Type 0 where
  pub id : A → ℕ
  pub text : A → Text
  pub embedding : A → Option (List F)

abbrev pub record_row : {F : Type 0} → Row F (EnrichmentRecord (List F))
record_row = record { id = λ r. r.id; text = λ r. r.narration; embedding = λ r. r.embedding }

abbrev pub chunk_row : {F : Type 0} → Row F (PolicyChunk (List F))
chunk_row = record { id = λ c. c.id; text = λ c. c.content; embedding = λ c. c.embedding }

-- `TOP_K` and `POLICY_TOP_K`
abbrev pub top_k : ℕ
top_k = 3

abbrev pub by_score : {S A : Type 0} → (S → S → Bool) → S × A → S × A → Bool
by_score lt a b = not (lt a.0 b.0)

abbrev pub keys : {S A : Type 0} → List (S × A) → List A
keys [] = []
keys ((s, a) ∷ rest) = a ∷ keys rest

module _ (fl : Floats) where
  open fl use {F, add, mul, div, sqrt, lt, le}

  abbrev dot : List F → List F → F → F
  dot [] ys acc = acc
  dot (x ∷ xs) [] acc = acc
  dot (x ∷ xs) (y ∷ ys) acc = dot xs ys (add acc (mul x y))

  abbrev is_zero_f : F → Bool
  is_zero_f x = not (lt x (zero_f fl)) && not (lt (zero_f fl) x)

  unfoldable pub cosine_similarity : List F → List F → F
  cosine_similarity a b =
      let norm_a = sqrt (dot a a (zero_f fl)) in
      let norm_b = sqrt (dot b b (zero_f fl)) in
      if is_zero_f norm_a || is_zero_f norm_b
      then zero_f fl
      else div (dot a b (zero_f fl)) (mul norm_a norm_b)

  -- `scored.sort(key=…, reverse=True)` and the slice.
  unfoldable pub best : {A : Type 0} → ℕ → List (F × A) → List (F × A)
  best k scored = take k (sort_by (by_score lt) scored)

  module _ {A : Type 0} (row : Row F A) where
    abbrev dense_entry : List F → F → A → Option (List F) → List (F × A) → List (F × A)
    dense_entry query floor a none rest = rest
    dense_entry query floor a (some v) rest =
        let s = cosine_similarity query v in if le floor s then (s, a) ∷ rest else rest

    unfoldable pub dense_scored : List F → F → List A → List (F × A)
    dense_scored query floor [] = []
    dense_scored query floor (a ∷ rows) =
        dense_entry query floor a (row.embedding a) (dense_scored query floor rows)

    unfoldable pub dense_search : List F → ℕ → F → List A → List (F × A)
    unfolding dense_scored
    dense_search query k floor candidates = best k (dense_scored query floor candidates)

    abbrev ids : List A → List ℕ
    ids [] = []
    ids (a ∷ rows) = row.id a ∷ ids rows

    abbrev zip_positive : List F → List A → List (F × ℕ)
    zip_positive [] rows = []
    zip_positive (s ∷ ss) [] = []
    zip_positive (s ∷ ss) (a ∷ rows) =
        let rest = zip_positive ss rows in if lt (zero_f fl) s then (s, row.id a) ∷ rest else rest

    abbrev texts : List A → List Text
    texts [] = []
    texts (a ∷ rows) = row.text a ∷ texts rows

    unfoldable pub lexical_ranked : (Text → Text) → Text → ℕ → List A → List ℕ
    lexical_ranked lower query k candidates =
        keys (best k (zip_positive (scores fl lower (texts candidates) query) candidates))

    -- `by_id[key]`; `none` is a KeyError.
    abbrev pub by_id : ℕ → List A → Option A
    by_id key [] = none
    by_id key (a ∷ rows) = if row.id a == key then some a else by_id key rows

    abbrev pub dense_ranked : Option (List F) → ℕ → F → List A → List ℕ
    dense_ranked none k floor candidates = []
    dense_ranked (some query) k floor candidates =
        ids (keys (dense_search query k floor candidates))

  -- `sorted(fused.items(), …)[:top_k]`
  unfoldable pub hybrid_rank : List ℕ → List ℕ → ℕ → List (ℕ × F)
  hybrid_rank dense lexical k =
      take k (sort_by (λ a b. not (lt a.1 b.1)) (rrf_fuse fl (dense ∷ lexical ∷ [])))

  abbrev pub with_row : {A : Type 0} → F → Option A → Option (List (F × A)) → Option (List (F × A))
  with_row s none rest = none
  with_row s (some a) none = none
  with_row s (some a) (some found) = some ((s, a) ∷ found)

  module _ {A : Type 0} (row : Row F A) where
    abbrev pub looked_up : List A → List (ℕ × F) → Option (List (F × A))
    looked_up candidates [] = some []
    looked_up candidates ((key, s) ∷ rest) =
        with_row s (by_id row key candidates) (looked_up candidates rest)

    -- The common text of the two hybrids. `none` is the KeyError of a ranked id with no row.
    unfoldable pub hybrid :
        (Text → Text) → Text → Option (List F) → ℕ → F → List A → List A → Option (List (F × A))
    hybrid lower query_text query_embedding k floor dense_candidates candidates =
        looked_up candidates (
          hybrid_rank (dense_ranked row query_embedding k floor dense_candidates)
            (lexical_ranked row lower query_text k candidates) k)

  -- The score is dropped.
  pub hybrid_find_similar_examples :
      (Text → Text)
      → Text
      → Option (List F)
      → ℕ
      → F
      → List (EnrichmentRecord (List F))
      → Option (List (EnrichmentRecord (List F)))
  hybrid_find_similar_examples lower query_text query_embedding k floor records = Option.map keys (
      hybrid record_row lower query_text query_embedding k floor
        (list_records_with_embeddings records) records)

  pub hybrid_retrieve_policy_chunks :
      (Text → Text)
      → Text
      → Option (List F)
      → ℕ
      → F
      → List (PolicyChunk (List F))
      → Option (List (F × PolicyChunk (List F)))
  hybrid_retrieve_policy_chunks lower query_text query_embedding k floor chunks =
      let candidates = list_policy_chunks_with_embeddings chunks in
      hybrid chunk_row lower query_text query_embedding k floor candidates candidates
