-- ===== src/McpDispatch.antt =====
-- narration-enrichment/src/narration_enrichment/mcp_server.py: `handle_message`, and the route
-- `mcp_endpoint` of main.py over it.
pub mod Answers
pub mod Endpoint
mod Examples
use gen_ai_backend.Prelude.{
  ℕ, String, str_eq, Bool, true, false, ◌||◌, Option, none, some, List, if◌then◌else◌,
}
use gen_ai_backend.Errors.{Raised, plain, other, Attempt, returned, raised}
use gen_ai_backend.PolicyStore.{Tables}
use gen_ai_backend.Auth.{ApiKey, Access, granted, rejected, verify_and_touch}
use gen_ai_backend.Json.{
  Json, null, bool, num, str, arr, obj, Items, Fields, empty, field, get, or_null,
}
use gen_ai_backend.McpServer.{
  Server, ok_reply, error_reply, invalid_request, method_not_found, invalid_params, starts_with,
  concat, falsy, tools_list, tools_call, resources_list, resources_read,
}

-- The reply to a request, and none to a notification.
abbrev pub unless_notification : Option Json → (Json → Fields) → Attempt (Option Fields)
unless_notification none reply = returned none
unless_notification (some id) reply = returned (some (reply id))

abbrev server_info : Json
server_info = obj (
    field "protocolVersion" (str "2025-06-18") (
      field "serverInfo"
        (obj (field "name" (str "narration-enrichment") (field "version" (str "0.1.0") empty)))
        (field "capabilities"
          (obj (field "tools" (obj empty) (field "resources" (obj empty) empty))) empty)))

abbrev pub is_version : Option Json → Bool
is_version (some (str v)) = str_eq v "2.0"
is_version _ = false

module _ {V : Type 0} (server : Server V) where
  abbrev pub listed : Json → Attempt Items → Attempt (Option Fields)
  listed id (raised e) = raised e
  listed id (returned items) =
      returned (some (ok_reply id (obj (field "resources" (arr items) empty))))

  unfoldable pub dispatch : Option Json → String → Fields → Attempt (Option Fields)
  dispatch id method params =
      if starts_with "notifications/" method
      then returned none
      else if str_eq method "initialize"
      then returned (some (ok_reply (or_null id) server_info))
      else if str_eq method "tools/list"
      then returned
          (some (ok_reply (or_null id) (obj (field "tools" (arr (tools_list server.menu)) empty))))
      else if str_eq method "tools/call"
      then returned (some (tools_call server (or_null id) params))
      else if str_eq method "resources/list"
      then listed (or_null id) (resources_list server server.session)
      else if str_eq method "resources/read"
      then returned (some (resources_read server (or_null id) params))
      else unless_notification id
          (λ i. error_reply i method_not_found (concat "Method not found: " method))

  -- `request.get("params") or {}`
  abbrev pub params_of : Option Json → Json
  params_of none = obj empty
  params_of (some v) = if falsy server v then obj empty else v

  abbrev pub with_params : Option Json → String → Json → Attempt (Option Fields)
  with_params id method (obj params) = dispatch id method params
  with_params id method wrong =
      unless_notification id (λ i. error_reply i invalid_params "'params' must be an object")

  abbrev pub with_method : Option Json → Bool → Option Json → Option Json → Attempt (Option Fields)
  with_method id true (some (str method)) params = with_params id method (params_of params)
  with_method id version method params =
      unless_notification id
        (λ i. error_reply i invalid_request "Invalid Request: bad jsonrpc/method")

  unfoldable pub handle_object : Fields → Attempt (Option Fields)
  handle_object request =
      with_method (get "id" request) (is_version (get "jsonrpc" request)) (get "method" request)
        (get "params" request)

  unfoldable pub handle_message : Json → Attempt (Option Fields)
  handle_message (obj request) = handle_object request
  handle_message wrong =
      returned (some (error_reply null invalid_request "Invalid Request: not a JSON-RPC object"))

-- What the route answers: a JSON-RPC reply, 204, or the 401 of `verify_and_touch`.
pub data McpResponse : Type 0 where
  reply : Fields → McpResponse
  no_content : McpResponse
  unauthorized : McpResponse

-- `method in _MCP_WORK_METHODS`: a list or an object cannot be hashed, which is a TypeError.
abbrev pub is_work : Option Json → Attempt Bool
is_work none = returned false
is_work (some (str method)) =
    returned (str_eq method "tools/call" || str_eq method "resources/read")
is_work (some (arr items)) = raised (plain other)
is_work (some (obj fields)) = raised (plain other)
is_work (some atom) = returned false

module _ (sha256 : String → String) {V : Type 0} (server : Server V) where
  abbrev pub sent : Attempt (Option Fields) → Attempt McpResponse
  sent (raised e) = raised e
  sent (returned none) = returned no_content
  sent (returned (some fields)) = returned (reply fields)

  abbrev pub identified : Fields → List ApiKey × Access → List ApiKey × Attempt McpResponse
  identified request (keys, rejected) = (keys, returned unauthorized)
  identified request (keys, granted key_hash) = (keys, sent (handle_message server (obj request)))

  abbrev pub unidentified : Fields → List ApiKey → List ApiKey × Attempt McpResponse
  unidentified request keys = (
    keys,
    returned (
        reply (
          error_reply (or_null (get "id" request)) invalid_request
            "authentication required: send X-API-Key for tools/call and resources/read")),
  )

  abbrev pub with_key : ℕ → Fields → List ApiKey → Option String → List ApiKey × Attempt McpResponse
  with_key now request keys none = unidentified request keys
  with_key now request keys (some raw) =
      if str_eq raw ""
      then unidentified request keys
      else identified request (verify_and_touch sha256 now raw keys)

  abbrev pub endpoint_for :
      ℕ → Fields → List ApiKey → Option String → Attempt Bool → List ApiKey × Attempt McpResponse
  endpoint_for now request keys x_api_key (raised e) = (keys, raised e)
  endpoint_for now request keys x_api_key (returned true) = with_key now request keys x_api_key
  endpoint_for now request keys x_api_key (returned false) =
      (keys, sent (handle_message server (obj request)))

  -- The body is an object, which the framework checks; an exception that escapes is a 500.
  unfoldable pub mcp_endpoint :
      ℕ → Fields → Option String → List ApiKey → List ApiKey × Attempt McpResponse
  mcp_endpoint now request x_api_key keys =
      endpoint_for now request keys x_api_key (is_work (get "method" request))
