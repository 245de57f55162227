-- ===== src/PolicyRoutes.antt =====
-- narration-enrichment/src/narration_enrichment/main.py: the routes `policies_ingest`, `policies_list` and
-- `policies_delete`, with the calls of s3_store.py. The object store is a list of the latest text for
-- each document, since a key is made of the document's id; what a call of it answers is an argument:
-- the uri of the stored object, or what it raises.
pub mod Settled
mod Examples
use gen_ai_backend.Prelude.{
  ℕ, String, str_eq, Bool, true, false, Option, none, some, List, [], ◌∷◌, if◌then◌else◌,
}
use gen_ai_backend.Prelude.Int.{pos}
use gen_ai_backend.Prelude.Text.{Text}
use gen_ai_backend.Errors.{
  Kind, timeout, api_error, instructor_retry, circuit_open, rate_limited, index_error, value_error,
  integrity_error, other, Raised, Attempt, returned, raised,
}
use gen_ai_backend.PolicyStore.{PolicyDoc, Tables, delete_policy_doc}
use gen_ai_backend.PolicyIngest.{IngestResult, Request, ingest}
use gen_ai_backend.PolicyList.{list_policy_docs}

pub record Objects : Type 0 where
  pub is_configured : Bool
  pub texts : List (String × Text)

pub record World (V : Type 0) : Type 0 where
  pub tables : Tables V
  pub objects : Objects

pub data Reply : Type 0 where
  ingested : IngestResult → Reply
  http : ℕ → Reply

-- `PolicyIngestRequest`
pub record Submission : Type 0 where
  pub doc_id : String
  pub title : String
  pub content : Text

abbrev pub find_text : String → List (String × Text) → Option Text
find_text doc_id [] = none
find_text doc_id ((k, text) ∷ os) = if str_eq k doc_id then some text else find_text doc_id os

abbrev pub without_text : String → List (String × Text) → List (String × Text)
without_text doc_id [] = []
without_text doc_id (o ∷ os) =
    let rest = without_text doc_id os in if str_eq (o.0) doc_id then rest else o ∷ rest

-- `put_object`, over the object of the same key, and `delete_object`.
abbrev pub put_text : String → Text → Objects → Objects
put_text doc_id text o = record o { texts = (doc_id, text) ∷ without_text doc_id o.texts }

abbrev pub delete_text : String → Objects → Objects
delete_text doc_id o = record o { texts = without_text doc_id o.texts }

-- A deletion of the object that fails is only logged.
abbrev pub without_object : Bool → Option Raised → String → Objects → Objects
without_object false failure doc_id o = o
without_object true (some e) doc_id o = o
without_object true none doc_id o = delete_text doc_id o

-- The handlers of the ingest, in their order.
abbrev pub ingest_error_status : Raised → ℕ
ingest_error_status e = elim e.kind [
  | value_error ↦ 400
  | api_error c ↦ 503
  | timeout ↦ 500
  | instructor_retry ↦ 500
  | circuit_open ms ↦ 500
  | rate_limited ms ↦ 500
  | index_error ↦ 500
  | integrity_error ↦ 500
  | other ↦ 500
]

abbrev pub reply_of : Attempt IngestResult → Reply
reply_of (returned result) = ingested result
reply_of (raised e) = http (ingest_error_status e)

-- The arguments of the ingest, with the defaults of its signature.
abbrev pub request_of : Submission → Option String → Request
request_of s source_uri = record {
  doc_id = s.doc_id;
  title = s.title;
  content = s.content;
  source_uri = source_uri;
  chunk_size = pos 500;
  overlap = pos 50;
}

module _ {V : Type 0} (sha256 : Text → String) (now : ℕ) (embed : ℕ → Text → Attempt V) where
  abbrev pub run_ingest : Request → Objects → Tables V → World V × Reply
  run_ingest r o t =
      let answer = ingest sha256 now embed r t in
      (record { tables = answer.0; objects = o }, reply_of answer.1)

  abbrev pub after_upload : Submission → World V → Attempt String → World V × Reply
  after_upload s w (raised e) = (w, http 503)
  after_upload s w (returned uri) =
      run_ingest (request_of s (some uri)) (put_text s.doc_id s.content w.objects) w.tables

  -- The upload comes first, if the store is configured.
  unfoldable pub policies_ingest : Attempt String → Submission → World V → World V × Reply
  policies_ingest upload s w =
      if w.objects.is_configured
      then after_upload s w upload
      else run_ingest (request_of s none) w.objects w.tables

module _ {V : Type 0} where
  pub policies_list : World V → List (PolicyDoc × ℕ)
  policies_list w = list_policy_docs w.tables

  unfoldable pub policies_delete : Bool → Option Raised → String → World V → World V
  policies_delete foreign_keys failure doc_id w = record {
    tables = (delete_policy_doc foreign_keys doc_id w.tables).0;
    objects = without_object w.objects.is_configured failure doc_id w.objects;
  }
