-- ===== src/ToolFunctions/Examples.antt =====
-- Three records of two categories.
use gen_ai_backend.Prelude.{ℕ, ◌≡◌, refl, none, some, List, [], ◌∷◌}
use gen_ai_backend.Prelude.Text.{Text, codes}
use gen_ai_backend.Prelude.Sort.{sort_by, insert_by}
use gen_ai_backend.Enrichments.{EnrichmentRecord}
use gen_ai_backend.ToolFunctions.{FindTransactionsArgs, group, add_to_group, category_breakdown}

abbrev first : EnrichmentRecord ℕ
first = record {
  id = 1;
  narration = codes "upi swiggy";
  merchant = codes "swiggy";
  category = codes "food";
  transaction_type = codes "upi";
  created_at = 10;
  embedding = none;
}

abbrev records : List (EnrichmentRecord ℕ)
records =
    first
    ∷ record first { id = 2; category = codes "fuel" }
    ∷ record first { id = 3; merchant = codes "zomato" }
    ∷ []

abbrev same : Text → Text
same text = text

abbrev args : FindTransactionsArgs
args = record { merchant = none; category = some (codes "food"); limit = 1 }

breakdown_runs :
    category_breakdown same same 20 records (some 1) ≡ (codes "food", 2) ∷ (codes "fuel", 1) ∷ []
unfolding category_breakdown group add_to_group sort_by insert_by
breakdown_runs = refl
