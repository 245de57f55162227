-- ===== src/IngestRoute/Examples.antt =====
-- A document at its second version, and a submission of the first one.
use gen_ai_backend.Prelude.{ℕ, String, ◌≡◌, refl, true, false, none, some, [], ◌∷◌}
use gen_ai_backend.Prelude.Text.{Text, strip, lstrip, rstrip, is_space}
use gen_ai_backend.PolicyStore.{PolicyDoc, get_policy_doc}
use gen_ai_backend.PolicyIngest.{is_unchanged}
use gen_ai_backend.IngestJobs.{done, IngestJob, count_ingest_backlog, find_ingest_job_by_checksum}
use gen_ai_backend.Worker.{World}
use gen_ai_backend.IngestRoute.{Submission, accepted, http, policies_ingest_async}

abbrev sha256 : Text → String
sha256 [] = "empty"
sha256 (c ∷ []) = "first"
sha256 _ = "second"

abbrev job : IngestJob
job = record {
  id = "j";
  doc_id = "a";
  title = "A";
  content = 65 ∷ [];
  checksum = "first";
  source_uri = none;
  status = done;
  attempts = 1;
  error = none;
  created_at = 1;
  started_at = some 2;
  finished_at = some 3;
}

abbrev doc : PolicyDoc
doc = record { doc_id = "a"; title = "A"; source_uri = none; checksum = "second"; ingested_at = 9 }

abbrev world : World ℕ
world = record {
  jobs = job ∷ record job { id = "k"; checksum = "second"; created_at = 5 } ∷ [];
  tables = record { docs = doc ∷ []; chunks = []; next_id = 3 };
  queue = record { visible = []; in_flight = []; visibility_timeout = 30 };
}

abbrev first_version : Submission
first_version = record { doc_id = "a"; title = "A"; content = 65 ∷ [] }

refused_when_full :
    (policies_ingest_async sha256 0 10 "new" true (record first_version { doc_id = "b" }) world).1
    ≡ http 429 (some 60)
unfolding policies_ingest_async find_ingest_job_by_checksum count_ingest_backlog strip lstrip rstrip
    is_space
refused_when_full = refl

-- The first version is answered as done and unchanged, and the document stays at its second one.
earlier_version_is_lost :
    let (w', reply) = policies_ingest_async sha256 5 10 "new" true first_version world in
    (reply ≡ accepted "j" "a" done true)
    × (w' ≡ world)
    × (is_unchanged "first" (get_policy_doc "a" w'.tables) ≡ false)
unfolding policies_ingest_async find_ingest_job_by_checksum strip lstrip rstrip is_space
    get_policy_doc
earlier_version_is_lost = (refl, refl, refl)
