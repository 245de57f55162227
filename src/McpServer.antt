-- ===== src/McpServer.antt =====
-- narration-enrichment/src/narration_enrichment/mcp_server.py: the dispatch of one JSON-RPC message, and the
-- route `mcp_endpoint` of main.py. The tools' schemas, the descriptions and json.dumps are arguments,
-- and so is whether the literal of a number is zero. A read of the database may raise.
pub mod Replies
pub mod Resources
use Prim.Native.Char.{code}
use gen_ai_backend.Prelude.{
  ℕ, String, str_eq, Bool, true, false, not, ◌&&◌, ◌==◌, Option, none, some, List, [], ◌∷◌,
  if◌then◌else◌,
}
use gen_ai_backend.Prelude.Text.{Text, codes, join, newline}
use gen_ai_backend.Errors.{Raised, Attempt, returned, raised}
use gen_ai_backend.Tools.{Tool, ToolResult, ToolOutcome, execute_tool}
use gen_ai_backend.PolicyStore.{PolicyDoc, PolicyChunk, Tables, get_policy_doc, chunks_of}
use gen_ai_backend.PolicyList.{list_policy_docs}
use gen_ai_backend.Json.{
  Json, null, bool, num, str, arr, obj, Items, nil, cons, Fields, empty, field, get, or_null,
}

-- `_ok`
abbrev pub ok_reply : Json → Json → Fields
ok_reply id result = field "jsonrpc" (str "2.0") (field "id" id (field "result" result empty))

-- The code of an error, by the name of its constant.
pub data Code : Type 0 where
  invalid_request method_not_found invalid_params internal_error : Code

abbrev code_literal : Code → String
code_literal invalid_request = "-32600"
code_literal method_not_found = "-32601"
code_literal invalid_params = "-32602"
code_literal internal_error = "-32603"

-- `_err`
abbrev pub error_reply : Json → Code → String → Fields
error_reply id c message = field "jsonrpc" (str "2.0") (
    field "id" id (
      field "error"
        (obj (field "code" (num (code_literal c)) (field "message" (str message) empty))) empty))

-- A tool of TOOL_REGISTRY.
pub record MenuTool : Type 0 where
  pub name : String
  pub description : String
  pub input_schema : Json
  pub tool : Tool

-- `s` less the prefix, if it starts with it.
unfoldable pub strip_prefix : String → String → Option String
strip_prefix String.[] s = some s
strip_prefix (String.◌∷◌ c cs) String.[] = none
strip_prefix (String.◌∷◌ c cs) (String.◌∷◌ d ds) =
    if code c == code d then strip_prefix cs ds else none

pub concat : String → String → String
concat String.[] s = s
concat (String.◌∷◌ c cs) s = String.◌∷◌ c (concat cs s)

abbrev pub starts_with : String → String → Bool
starts_with prefix s = elim (strip_prefix prefix s) [ none ↦ false | some rest ↦ true ]

-- `RESOURCE_SCHEME`
abbrev pub resource_scheme : String
resource_scheme = "policy://"

pub record Server (V : Type 0) : Type 0 where
  pub menu : List MenuTool
  pub dumps : ToolResult → Attempt String
  pub dumps_arguments : Fields → String
  pub is_zero : String → Bool
  pub text_of : Text → String
  pub describe : PolicyDoc → ℕ → String
  pub session : Attempt (Tables V)

-- `TOOL_REGISTRY.get`
abbrev pub registered : List MenuTool → String → Option Tool
registered [] name = none
registered (t ∷ ts) name = if str_eq t.name name then some t.tool else registered ts name

-- `_tools_list`
pub tools_list : List MenuTool → Items
tools_list [] = nil
tools_list (t ∷ ts) =
    cons
      (obj (
        field "name" (str t.name)
          (field "description" (str t.description) (field "inputSchema" t.input_schema empty))))
      (tools_list ts)

abbrev pub uri_of : PolicyDoc → String
uri_of d = concat resource_scheme d.doc_id

module _ {V : Type 0} (server : Server V) where
  abbrev pub falsy : Json → Bool
  falsy null = true
  falsy (bool b) = not b
  falsy (num literal) = server.is_zero literal
  falsy (str s) = str_eq s ""
  falsy (arr nil) = true
  falsy (arr (cons v vs)) = false
  falsy (obj empty) = true
  falsy (obj (field k v rest)) = false

  abbrev tool_reply : Json → ToolOutcome → Attempt String → Fields
  tool_reply id outcome (raised e) = error_reply id internal_error "Internal error"
  tool_reply id outcome (returned text) = ok_reply id (
      obj (
        field "content"
          (arr (cons (obj (field "type" (str "text") (field "text" (str text) empty))) nil))
          (field "isError" (bool (not outcome.ok)) empty)))

  abbrev run_named : Json → String → Option String → Fields
  run_named id name arguments =
      let outcome = execute_tool (registered server.menu) name arguments in
      tool_reply id outcome (server.dumps outcome.result)

  abbrev tools_call_on : Json → Option Json → Option Json → Fields
  tools_call_on id (some (str name)) none = run_named id name none
  tools_call_on id (some (str name)) (some null) = run_named id name none
  tools_call_on id (some (str name)) (some (obj arguments)) =
      run_named id name (some (server.dumps_arguments arguments))
  tools_call_on id (some (str name)) (some wrong) =
      error_reply id invalid_params "'arguments' must be an object if present"
  tools_call_on id missing arguments =
      error_reply id invalid_params "tools/call requires a string 'name'"

  -- `_tools_call`, behind its handler.
  unfoldable pub tools_call : Json → Fields → Fields
  tools_call id params = tools_call_on id (get "name" params) (get "arguments" params)

  abbrev pub resource : PolicyDoc → ℕ → Json
  resource d count = obj (
      field "uri" (str (uri_of d)) (
        field "name" (str d.title) (
          field "description" (str (server.describe d count))
            (field "mimeType" (str "text/plain") empty))))

  abbrev pub resources : List (PolicyDoc × ℕ) → Items
  resources [] = nil
  resources ((d, count) ∷ ds) = cons (resource d count) (resources ds)

  -- `_resources_list`
  unfoldable pub resources_list : Attempt (Tables V) → Attempt Items
  resources_list (raised e) = raised e
  resources_list (returned t) = returned (resources (list_policy_docs t))

  abbrev contents : List (PolicyChunk V) → List Text
  contents [] = []
  contents (c ∷ cs) = c.content ∷ contents cs

  abbrev pub document_text : PolicyDoc → Tables V → String
  document_text d t = server.text_of (join newline (contents (chunks_of d.doc_id t.chunks)))

  abbrev read_found : Json → String → Tables V → Option PolicyDoc → Fields
  read_found id uri t none = error_reply id invalid_params (concat "resource not found: " uri)
  read_found id uri t (some d) = ok_reply id (
      obj (
        field "contents"
          (arr (
            cons
              (obj (
                field "uri" (str uri) (
                  field "mimeType" (str "text/plain")
                    (field "text" (str (document_text d t)) empty))))
              nil))
          empty))

  abbrev wrong_uri : Json → Fields
  wrong_uri id = error_reply id invalid_params "resources/read requires a 'policy://<doc_id>' uri"

  abbrev read_doc : Json → String → Option String → Attempt (Tables V) → Fields
  read_doc id uri none session = wrong_uri id
  read_doc id uri (some doc_id) (raised e) = error_reply id internal_error "Internal error"
  read_doc id uri (some doc_id) (returned t) = read_found id uri t (get_policy_doc doc_id t)

  abbrev read_uri : Json → Option Json → Fields
  read_uri id (some (str uri)) = read_doc id uri (strip_prefix resource_scheme uri) server.session
  read_uri id _ = wrong_uri id

  -- `_resources_read`, behind its handler.
  unfoldable pub resources_read : Json → Fields → Fields
  resources_read id params = read_uri id (get "uri" params)
