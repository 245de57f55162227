-- ===== src/Bm25.antt =====
-- narration-enrichment/src/narration_enrichment/bm25.py: tokens, the BM25 scores of a corpus and the fusion of
-- rankings. `str.lower` is an argument, floats are a parameter.
pub mod Fusion
use gen_ai_backend.Prelude.{
  ℕ, zero, suc, ◌+◌, ◌-◌, Bool, true, false, ◌&&◌, ◌||◌, ◌==◌, leb, List, [], ◌∷◌, ◌++◌, length,
  map, if◌then◌else◌,
}
use gen_ai_backend.Prelude.Text.{Text}
use gen_ai_backend.Floats.{Floats, zero_f, ratio, max_f}

-- `[a-z0-9]`
abbrev is_token_char : ℕ → Bool
is_token_char c = (leb 97 c && leb c 122) || (leb 48 c && leb c 57)

abbrev flush : Text → List Text → List Text
flush [] rest = rest
flush token rest = token ∷ rest

-- `findall`, with the token that is being read.
abbrev find_tokens : Text → Text → List Text
find_tokens token [] = flush token []
find_tokens token (c ∷ cs) =
    let longer = find_tokens (token ++ c ∷ []) cs in
    let next = find_tokens [] cs in if is_token_char c then longer else flush token next

unfoldable pub tokenize : (Text → Text) → Text → List Text
tokenize lower text = find_tokens [] (lower text)

abbrev pub text_eq : Text → Text → Bool
text_eq [] [] = true
text_eq (c ∷ cs) (d ∷ ds) = c == d && text_eq cs ds
text_eq _ _ = false

-- `tf.get(term, 0)`: how often the document has the term.
abbrev term_frequency : Text → List Text → ℕ
term_frequency term [] = 0
term_frequency term (t ∷ ts) = (if text_eq t term then 1 else 0) + term_frequency term ts

-- `self._df.get(term, 0)`: how many documents have the term.
abbrev document_frequency : Text → List (List Text) → ℕ
document_frequency term [] = 0
document_frequency term (d ∷ ds) =
    (if term_frequency term d == 0 then 0 else 1) + document_frequency term ds

abbrev total_length : List (List Text) → ℕ
total_length [] = 0
total_length (d ∷ ds) = length d + total_length ds

module _ (fl : Floats) where
  open fl use {F, of_nat, add, sub, mul, div, log, lt, le}

  abbrev k1 : F
  k1 = ratio fl 3 2

  abbrev b : F
  b = ratio fl 3 4

  abbrev average_length : List (List Text) → F
  average_length docs =
      if length docs == 0
      then zero_f fl
      else div (of_nat (total_length docs)) (of_nat (length docs))

  -- `_idf`
  unfoldable pub idf : List (List Text) → Text → F
  idf docs term =
      let df = document_frequency term docs in
      if df == 0
      then zero_f fl
      else max_f fl (zero_f fl) (
          log (
            add
              (div (add (sub (of_nat (length docs)) (of_nat df)) (ratio fl 1 2))
                (add (of_nat df) (ratio fl 1 2)))
              (of_nat 1)))

  abbrev length_norm : List (List Text) → List Text → F
  length_norm docs tokens =
      mul k1 (add (sub (of_nat 1) b) (div (mul b (of_nat (length tokens))) (average_length docs)))

  abbrev term_score : List (List Text) → List Text → Text → ℕ → F
  term_score docs tokens term f =
      div (mul (idf docs term) (mul (of_nat f) (add k1 (of_nat 1))))
        (add (of_nat f) (length_norm docs tokens))

  -- The loop over the terms of the query, with the score so far.
  abbrev pub add_terms : List (List Text) → List Text → List Text → F → F
  add_terms docs tokens [] score = score
  add_terms docs tokens (term ∷ terms) score =
      let f = term_frequency term tokens in
      add_terms docs tokens terms
        (if f == 0 then score else add score (term_score docs tokens term f))

  abbrev pub score_of : List (List Text) → List Text → List Text → F
  score_of docs query [] = zero_f fl
  score_of docs query (t ∷ ts) = add_terms docs (t ∷ ts) query (zero_f fl)

  -- `BM25(documents).scores(query)`, one score for each document.
  unfoldable pub scores : (Text → Text) → List Text → Text → List F
  unfolding tokenize
  scores lower documents query =
      let docs = map (tokenize lower) documents in map (score_of docs (tokenize lower query)) docs

  abbrev pub rrf_k : ℕ
  rrf_k = 60

  -- What a ranking adds to the item at that rank.
  unfoldable pub weight : ℕ → F
  weight rank = ratio fl 1 (rrf_k + rank + 1)

  -- `fused[key] = fused.get(key, 0.0) + w`, in a dict in the order of insertion.
  unfoldable pub bump : ℕ → F → List (ℕ × F) → List (ℕ × F)
  bump key w [] = (key, add (zero_f fl) w) ∷ []
  bump key w ((k, s) ∷ rest) =
      let later = bump key w rest in if k == key then (k, add s w) ∷ rest else (k, s) ∷ later

  unfoldable pub fuse_ranking : ℕ → List ℕ → List (ℕ × F) → List (ℕ × F)
  fuse_ranking rank [] fused = fused
  fuse_ranking rank (key ∷ keys) fused = fuse_ranking (suc rank) keys (bump key (weight rank) fused)

  unfoldable pub fuse_all : List (List ℕ) → List (ℕ × F) → List (ℕ × F)
  unfolding fuse_ranking
  fuse_all [] fused = fused
  fuse_all (ranking ∷ rankings) fused = fuse_all rankings (fuse_ranking zero ranking fused)

  unfoldable pub rrf_fuse : List (List ℕ) → List (ℕ × F)
  unfolding fuse_all
  rrf_fuse rankings = fuse_all rankings []
