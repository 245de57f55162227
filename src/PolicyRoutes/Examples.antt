-- ===== src/PolicyRoutes/Examples.antt =====
-- A submission that is stored, and a blank one of the same document, which is refused after its upload.
use gen_ai_backend.Prelude.{ℕ, String, ◌≡◌, refl, true, some, [], ◌∷◌}
use gen_ai_backend.Prelude.Text.{Text, strip, lstrip, rstrip, is_space}
use gen_ai_backend.Errors.{Attempt, returned}
use gen_ai_backend.PolicyIngest.{ingest}
use gen_ai_backend.PolicyRoutes.{World, Reply, http, Submission, find_text, policies_ingest}
use gen_ai_backend.PolicyRoutes.Settled.{IsSettled, policies_ingest_settles}

abbrev empty : World ℕ
empty = record {
  tables = record { docs = []; chunks = []; next_id = 1 };
  objects = record { is_configured = true; texts = [] };
}

abbrev sha256 : Text → String
sha256 text = "sum"

abbrev embed : ℕ → Text → Attempt ℕ
embed i text = returned i

abbrev submission : Submission
submission = record { doc_id = "a"; title = "A"; content = 65 ∷ [] }

abbrev blank : Submission
blank = record { doc_id = "a"; title = "A"; content = 32 ∷ [] }

abbrev first : World ℕ × Reply
first = policies_ingest sha256 5 embed (returned "s3://b/a.txt") submission empty

abbrev second : World ℕ × Reply
second = policies_ingest sha256 6 embed (returned "s3://b/a.txt") blank first.0

-- The refused text has taken the place of the stored one.
refused_text_overwrites :
    (second.1 ≡ http 400)
    × (second.0.tables ≡ first.0.tables)
    × (find_text "a" second.0.objects.texts ≡ some (32 ∷ []))
unfolding policies_ingest ingest strip lstrip rstrip is_space
refused_text_overwrites = (refl, refl, refl)

policies_ingest_settles_example : IsSettled sha256 submission empty first
policies_ingest_settles_example =
    policies_ingest_settles sha256 5 embed submission empty (returned "s3://b/a.txt")
