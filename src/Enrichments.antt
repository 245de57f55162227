-- ===== src/Enrichments.antt =====
-- narration-enrichment/src/narration_enrichment/db.py: the table `enrichment_records`, rows in the order of
-- their ids. The confidence, a float that nothing here computes with, is left out. An embedding is a
-- value of the embedding provider's, of a type `V`.
use gen_ai_backend.Prelude.{
  ℕ, Bool, true, false, Option, none, some, List, [], ◌∷◌, ◌++◌, if◌then◌else◌,
}
use gen_ai_backend.Prelude.Text.{Text}

pub record EnrichmentRecord (V : Type 0) : Type 0 where
  pub id : ℕ
  pub narration : Text
  pub merchant : Text
  pub category : Text
  pub transaction_type : Text
  pub created_at : ℕ
  pub embedding : Option V

module _ {V : Type 0} where
  -- `save_enrichment`, with the id that the database gives.
  pub save_enrichment :
      ℕ
      → ℕ
      → Text
      → Text × Text × Text
      → Option V
      → List (EnrichmentRecord V)
      → List (EnrichmentRecord V)
  save_enrichment id now narration (merchant, category, transaction_type) embedding records =
      records
      ++ record {
        id = id;
        narration = narration;
        merchant = merchant;
        category = category;
        transaction_type = transaction_type;
        created_at = now;
        embedding = embedding;
      }
        ∷ []

  abbrev pub has_embedding : Option V → Bool
  has_embedding none = false
  has_embedding (some v) = true

  abbrev pub list_records_with_embeddings : List (EnrichmentRecord V) → List (EnrichmentRecord V)
  list_records_with_embeddings [] = []
  list_records_with_embeddings (r ∷ rs) =
      let rest = list_records_with_embeddings rs in
      if has_embedding r.embedding then r ∷ rest else rest
