-- ===== src/McpServer/Replies.antt =====
-- Every handler of a method gives one reply to the id it is given.
use gen_ai_backend.Prelude.{String, ◌≡◌, refl, Bool, true, false, not, Option, none, some}
use gen_ai_backend.Errors.{Attempt, returned, raised}
use gen_ai_backend.Tools.{ToolOutcome, execute_tool}
use gen_ai_backend.PolicyStore.{Tables, PolicyDoc, get_policy_doc}
use gen_ai_backend.Json.{Json, null, bool, num, str, arr, obj, Fields, get}
use gen_ai_backend.McpServer.{
  Server, strip_prefix, tools_call, resources_read, registered, tools_call_on, run_named,
  tool_reply, read_uri, read_doc, read_found, resource_scheme,
}

abbrev pub has : Option Json → Bool
has none = false
has (some v) = true

-- A JSON-RPC reply to that id: it has a result or an error, and not both.
pub record IsReply (id : Json) (reply : Fields) : Type 0 where
  pub version : get "jsonrpc" reply ≡ some (str "2.0")
  pub echoed : get "id" reply ≡ some id
  pub one_of : has (get "result" reply) ≡ not (has (get "error" reply))

module _ {V : Type 0} (server : Server V) where
  tool_reply-IsReply :
      (id : Json) (o : ToolOutcome) (text : Attempt String)
      → IsReply id (tool_reply server id o text)
  tool_reply-IsReply id o (raised e) = record { version = refl; echoed = refl; one_of = refl }
  tool_reply-IsReply id o (returned text) = record { version = refl; echoed = refl; one_of = refl }

  run_named-IsReply :
      (id : Json) (name : String) (arguments : Option String)
      → IsReply id (run_named server id name arguments)
  run_named-IsReply id name arguments =
      let o = execute_tool (registered server.menu) name arguments in
      tool_reply-IsReply id o (server.dumps o.result)

  tools_call_on-IsReply :
      (id : Json) (name arguments : Option Json)
      → IsReply id (tools_call_on server id name arguments)
  tools_call_on-IsReply id (some (str name)) none = run_named-IsReply id name none
  tools_call_on-IsReply id (some (str name)) (some null) = run_named-IsReply id name none
  tools_call_on-IsReply id (some (str name)) (some (obj fields)) = run_named-IsReply id name _
  tools_call_on-IsReply id (some (str name)) (some (bool b)) = record {
    version = refl;
    echoed = refl;
    one_of = refl;
  }
  tools_call_on-IsReply id (some (str name)) (some (num n)) = record {
    version = refl;
    echoed = refl;
    one_of = refl;
  }
  tools_call_on-IsReply id (some (str name)) (some (str s)) = record {
    version = refl;
    echoed = refl;
    one_of = refl;
  }
  tools_call_on-IsReply id (some (str name)) (some (arr xs)) = record {
    version = refl;
    echoed = refl;
    one_of = refl;
  }
  tools_call_on-IsReply id none arguments = record { version = refl; echoed = refl; one_of = refl }
  tools_call_on-IsReply id (some null) arguments = record {
    version = refl;
    echoed = refl;
    one_of = refl;
  }
  tools_call_on-IsReply id (some (bool b)) arguments = record {
    version = refl;
    echoed = refl;
    one_of = refl;
  }
  tools_call_on-IsReply id (some (num n)) arguments = record {
    version = refl;
    echoed = refl;
    one_of = refl;
  }
  tools_call_on-IsReply id (some (arr xs)) arguments = record {
    version = refl;
    echoed = refl;
    one_of = refl;
  }
  tools_call_on-IsReply id (some (obj fields)) arguments = record {
    version = refl;
    echoed = refl;
    one_of = refl;
  }

  read_found-IsReply :
      (id : Json) (uri : String) (t : Tables V) (d : Option PolicyDoc)
      → IsReply id (read_found server id uri t d)
  read_found-IsReply id uri t none = record { version = refl; echoed = refl; one_of = refl }
  read_found-IsReply id uri t (some d) = record { version = refl; echoed = refl; one_of = refl }

  read_doc-IsReply :
      (id : Json) (uri : String) (doc_id : Option String) (session : Attempt (Tables V))
      → IsReply id (read_doc server id uri doc_id session)
  read_doc-IsReply id uri none session = record { version = refl; echoed = refl; one_of = refl }
  read_doc-IsReply id uri (some doc_id) (raised e) = record {
    version = refl;
    echoed = refl;
    one_of = refl;
  }
  read_doc-IsReply id uri (some doc_id) (returned t) =
      read_found-IsReply id uri t (get_policy_doc doc_id t)

  read_uri-IsReply : (id : Json) (uri : Option Json) → IsReply id (read_uri server id uri)
  read_uri-IsReply id (some (str uri)) =
      read_doc-IsReply id uri (strip_prefix resource_scheme uri) server.session
  read_uri-IsReply id none = record { version = refl; echoed = refl; one_of = refl }
  read_uri-IsReply id (some null) = record { version = refl; echoed = refl; one_of = refl }
  read_uri-IsReply id (some (bool b)) = record { version = refl; echoed = refl; one_of = refl }
  read_uri-IsReply id (some (num n)) = record { version = refl; echoed = refl; one_of = refl }
  read_uri-IsReply id (some (arr xs)) = record { version = refl; echoed = refl; one_of = refl }
  read_uri-IsReply id (some (obj fields)) = record { version = refl; echoed = refl; one_of = refl }

  pub tools_call-IsReply : (id : Json) (params : Fields) → IsReply id (tools_call server id params)
  unfolding tools_call
  tools_call-IsReply id params =
      tools_call_on-IsReply id (get "name" params) (get "arguments" params)

  pub resources_read-IsReply :
      (id : Json) (params : Fields) → IsReply id (resources_read server id params)
  unfolding resources_read
  resources_read-IsReply id params = read_uri-IsReply id (get "uri" params)
