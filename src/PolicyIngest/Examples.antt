-- ===== src/PolicyIngest/Examples.antt =====
-- Ingests of a text of two chunks, and one whose provider fails.
use gen_ai_backend.Prelude.{ℕ, zero, suc, String, ◌≡◌, refl, true, false, none, [], ◌∷◌, arith}
use gen_ai_backend.Prelude.Int.{pos}
use gen_ai_backend.Prelude.Text.{Text, strip, lstrip, rstrip, is_space}
use gen_ai_backend.Errors.{plain, Attempt, returned, raised, timeout}
use gen_ai_backend.PolicyStore.{Tables, get_policy_doc}
use gen_ai_backend.PolicyIngest.{Request, ingest}
use gen_ai_backend.PolicyIngest.Idempotent.{second_ingest_unchanged}

abbrev empty : Tables ℕ
empty = record { docs = []; chunks = []; next_id = 1 }

abbrev sha256 : Text → String
sha256 text = "sum"

abbrev request : Request
request = record {
  doc_id = "a";
  title = "A";
  content = 65 ∷ 66 ∷ 67 ∷ [];
  source_uri = none;
  chunk_size = pos 2;
  overlap = pos 0;
}

abbrev embed : ℕ → Text → Attempt ℕ
embed i text = returned i

-- The second call times out.
abbrev embed_once : ℕ → Text → Attempt ℕ
embed_once zero text = returned 0
embed_once (suc i) text = raised (plain timeout)

second_ingest_unchanged_example :
    (n : ℕ) × ((ingest sha256 5 embed request empty).1
      ≡ returned
          (record { doc_id = "a"; chunks_ingested = n; unchanged = false; checksum = "sum" }))
    × (ingest sha256 8 embed_once request (ingest sha256 5 embed request empty).0 ≡ (
      (ingest sha256 5 embed request empty).0,
      returned (record { doc_id = "a"; chunks_ingested = n; unchanged = true; checksum = "sum" }),
    ))
unfolding get_policy_doc strip lstrip rstrip is_space
second_ingest_unchanged_example =
    second_ingest_unchanged sha256 5 8 embed embed_once request request 2 0 empty
      (λ i text. (i, refl)) (λ h. refl) (omega arith) refl refl refl refl refl refl
