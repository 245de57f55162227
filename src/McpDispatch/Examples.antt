-- ===== src/McpDispatch/Examples.antt =====
-- A server with one tool and one document.
use gen_ai_backend.Prelude.{ℕ, ◌≡◌, refl, inl, false, none, some, [], ◌∷◌}
use gen_ai_backend.Errors.{returned, raised, plain, other}
use gen_ai_backend.Auth.{require_api_key, verify_and_touch}
use gen_ai_backend.PolicyStore.{PolicyDoc, Tables}
use gen_ai_backend.Json.{str, num, arr, nil, obj, Fields, empty, field}
use gen_ai_backend.McpServer.{Server, strip_prefix}
use gen_ai_backend.McpDispatch.{handle_message, mcp_endpoint}
use gen_ai_backend.McpDispatch.Answers.{Answered, request-Answered}
use gen_ai_backend.McpDispatch.Endpoint.{work_needs_identity}

abbrev doc : PolicyDoc
doc = record { doc_id = "fees"; title = "Fees"; source_uri = none; checksum = "c"; ingested_at = 1 }

abbrev tables : Tables ℕ
tables = record { docs = doc ∷ []; chunks = []; next_id = 1 }

abbrev server : Server ℕ
server = record {
  menu =
      record {
        name = "count_transactions";
        description = "count";
        input_schema = obj empty;
        tool = record { run = λ arguments. some (returned ([], "2")) };
      }
      ∷ [];
  dumps = λ answer. returned "2";
  dumps_arguments = λ arguments. "{}";
  is_zero = λ literal. false;
  text_of = λ text. "";
  describe = λ d count. d.title;
  session = returned tables;
}

abbrev broken : Server ℕ
broken = record server { session = raised (plain other) }

-- An unknown method, with an id.
abbrev request : Fields
request =
    field "jsonrpc" (str "2.0") (field "id" (num "7") (field "method" (str "tools/drop") empty))

request-Answered_example :
    Answered server (some (str "tools/drop")) (num "7") (handle_message server (obj request))
unfolding strip_prefix
request-Answered_example = request-Answered server request (num "7") refl (λ m h.
    let e : str "tools/drop" ≡ str m = cc h in let e' : "tools/drop" ≡ m = cc e in rw (← e') refl)

abbrev notification : Fields
notification = field "jsonrpc" (str "2.0") (field "method" (str "tools/list") empty)

abbrev work : Fields
work = field "jsonrpc" (str "2.0") (field "id" (num "7") (field "method" (str "tools/call") empty))

work_needs_identity_example :
    mcp_endpoint (λ s. s) server 5 work (some "guess") []
    ≡ mcp_endpoint (λ s. s) broken 5 work (some "guess") []
unfolding require_api_key verify_and_touch
work_needs_identity_example =
    work_needs_identity (λ s. s) server broken 5 work (some "guess") [] "tools/call" refl (inl refl)
      refl

-- A method that is a list is a bad request to the dispatch, and an exception to the route.
abbrev unhashable : Fields
unhashable = field "jsonrpc" (str "2.0") (field "id" (num "7") (field "method" (arr nil) empty))

route_raises : mcp_endpoint (λ s. s) server 5 unhashable none [] ≡ ([], raised (plain other))
unfolding mcp_endpoint
route_raises = refl
