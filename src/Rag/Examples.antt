-- ===== src/Rag/Examples.antt =====
-- Floats as fractions, and a table of two records, one of them saved in an outage.
use gen_ai_backend.Prelude.{ℕ, ◌+◌, ◌-◌, ◌*◌, ◌≡◌, refl, ltb, leb, none, some, List, [], ◌∷◌, arith}
use gen_ai_backend.Prelude.Text.{Text, codes}
use gen_ai_backend.Prelude.Sort.{sort_by, insert_by}
use gen_ai_backend.Floats.{Floats}
use gen_ai_backend.Bm25.{tokenize, idf, scores, weight, rrf_fuse}
use gen_ai_backend.Bm25.Fusion.{fused_score, with_rank, rank_of, fusion_adds_ranks}
use gen_ai_backend.Enrichments.{EnrichmentRecord}
use gen_ai_backend.Rag.{record_row, hybrid, lexical_ranked, best}
use gen_ai_backend.Rag.Sound.{found_ids}
use gen_ai_backend.Rag.Outage.{outage_keeps_lexical}

-- p / q of natural numbers; the logarithm and the root are not needed here.
abbrev fractions : Floats
fractions = record {
  F = ℕ × ℕ;
  of_nat = λ n. (n, 1);
  add = λ a b. (a.0 * b.1 + b.0 * a.1, a.1 * b.1);
  sub = λ a b. (a.0 * b.1 - b.0 * a.1, a.1 * b.1);
  mul = λ a b. (a.0 * b.0, a.1 * b.1);
  div = λ a b. (a.0 * b.1, a.1 * b.0);
  log = λ a. a;
  sqrt = λ a. a;
  lt = λ a b. ltb (a.0 * b.1) (b.0 * a.1);
  le = λ a b. leb (a.0 * b.1) (b.0 * a.1);
}

abbrev swiggy : EnrichmentRecord (List (ℕ × ℕ))
swiggy = record {
  id = 4;
  narration = codes "upi swiggy order";
  merchant = codes "Swiggy";
  category = codes "food";
  transaction_type = codes "upi";
  created_at = 1;
  embedding = none;
}

abbrev fuel : EnrichmentRecord (List (ℕ × ℕ))
fuel = record swiggy { id = 9; narration = codes "card fuel"; embedding = some ((1, 1) ∷ []) }

abbrev records : List (EnrichmentRecord (List (ℕ × ℕ)))
records = swiggy ∷ fuel ∷ []

abbrev query : Text
query = codes "swiggy"

abbrev lower : Text → Text
lower text = text

outage_keeps_lexical_example :
    (found : List ((ℕ × ℕ) × EnrichmentRecord (List (ℕ × ℕ)))) × (hybrid fractions record_row lower
        query none 3
        (7, 10)
        (fuel ∷ [])
        records
      ≡ some found)
    × (found_ids fractions record_row found
        ≡ lexical_ranked fractions record_row lower query 3 records)
unfolding weight
outage_keeps_lexical_example =
    outage_keeps_lexical fractions record_row lower query 3 (7, 10) (fuel ∷ []) records
      (omega arith) (λ i j h. ground arith)

-- The record that has no embedding is found by its words.
lexical_run : lexical_ranked fractions record_row lower query 3 records ≡ 4 ∷ []
unfolding lexical_ranked scores tokenize best sort_by insert_by idf
lexical_run = refl

fusion_adds_ranks_example :
    fused_score 9 (rrf_fuse fractions ((4 ∷ 9 ∷ []) ∷ (9 ∷ []) ∷ []))
    ≡ with_rank fractions
        (with_rank fractions none (rank_of 0 9 (4 ∷ 9 ∷ [])))
        (rank_of 0 9 (9 ∷ []))
fusion_adds_ranks_example =
    fusion_adds_ranks fractions (4 ∷ 9 ∷ []) (9 ∷ []) 9 (omega arith) (omega arith)
