-- ===== src/McpDispatch/Answers.antt =====
-- Which messages are answered, and how.
use gen_ai_backend.Prelude.{
  String, str_eq, eq_iff, ◌≡◌, refl, inl, inr, Bool, true, false, ◌||◌, Bool-cases, Option, none,
  some, arith,
}
use gen_ai_backend.Errors.{Attempt, returned, raised}
use gen_ai_backend.PolicyStore.{Tables}
use gen_ai_backend.Json.{Json, null, bool, num, str, arr, obj, Fields, get, or_null}
use gen_ai_backend.McpServer.{
  Server, error_reply, Code, invalid_request, invalid_params, method_not_found, starts_with,
  strip_prefix, concat, resources_list,
}
use gen_ai_backend.McpServer.Replies.{IsReply, has, tools_call-IsReply, resources_read-IsReply}
use gen_ai_backend.McpDispatch.{
  unless_notification, is_version, listed, dispatch, params_of, with_params, with_method,
  handle_object, handle_message,
}

-- The methods that are served.
abbrev served : String → Bool
served m =
    str_eq m "initialize"
    || str_eq m "tools/list"
    || str_eq m "tools/call"
    || str_eq m "resources/list"
    || str_eq m "resources/read"

module _ {V : Type 0} (server : Server V) where
  -- What a message with that method comes to: for a request its reply, or, if the method is the
  -- listing of the resources, what the database raised.
  abbrev pub Answered : Option Json → Json → Attempt (Option Fields) → Type 0
  Answered method id (returned none) = ⊥
  Answered method id (returned (some reply)) = IsReply id reply
  Answered method id (raised e) =
      (method ≡ some (str "resources/list")) × (server.session ≡ raised e)

  listed-Answered :
      (id : Json) (session : Attempt (Tables V))
      → server.session ≡ session
      → Answered (some (str "resources/list")) id (listed server id (resources_list server session))
  unfolding resources_list
  listed-Answered id (raised e) h = (refl, h)
  listed-Answered id (returned t) h = record { version = refl; echoed = refl; one_of = refl }

  unless-Answered :
      (method id : Option Json) (c : Code) (message : String)
      → has id ≡ true
      → Answered method (or_null id) (unless_notification id (λ i. error_reply i c message))
  unless-Answered method none c message h = cc
  unless-Answered method (some id) c message h = record {
    version = refl;
    echoed = refl;
    one_of = refl;
  }

  dispatch-Answered :
      (id : Option Json) (method : String) (params : Fields)
      → starts_with "notifications/" method ≡ false
      → has id || served method ≡ true
      → Answered (some (str method)) (or_null id) (dispatch server id method params)
  unfolding dispatch
  dispatch-Answered id method params quiet h =
      rw quiet (elim (Bool-cases (str_eq method "initialize")) [
        | inl y ↦ rw y (record { version = refl; echoed = refl; one_of = refl })
        | inr n1 ↦ rw n1 (elim (Bool-cases (str_eq method "tools/list")) [
          | inl y ↦ rw y (record { version = refl; echoed = refl; one_of = refl })
          | inr n2 ↦ rw n2 (elim (Bool-cases (str_eq method "tools/call")) [
            | inl y ↦ rw y (tools_call-IsReply server (or_null id) params)
            | inr n3 ↦ rw n3 (elim (Bool-cases (str_eq method "resources/list")) [
              | inl y ↦
                  rw ((eq_iff method "resources/list").0 y)
                    (listed-Answered (or_null id) server.session refl)
              | inr n4 ↦ rw n4 (elim (Bool-cases (str_eq method "resources/read")) [
                | inl y ↦ rw y (resources_read-IsReply server (or_null id) params)
                | inr n5 ↦ rw n5 (
                    unless-Answered (some (str method)) id method_not_found
                      (concat "Method not found: " method) (ground arith))
              ])
            ])
          ])
        ])
      ])

  with_params-Answered :
      (id : Option Json) (method : String) (params : Json)
      → starts_with "notifications/" method ≡ false
      → has id ≡ true
      → Answered (some (str method)) (or_null id) (with_params server id method params)
  with_params-Answered id method (obj params) quiet h =
      dispatch-Answered id method params quiet (ground arith)
  with_params-Answered id method null quiet h =
      unless-Answered (some (str method)) id invalid_params _ h
  with_params-Answered id method (bool b) quiet h =
      unless-Answered (some (str method)) id invalid_params _ h
  with_params-Answered id method (num n) quiet h =
      unless-Answered (some (str method)) id invalid_params _ h
  with_params-Answered id method (str s) quiet h =
      unless-Answered (some (str method)) id invalid_params _ h
  with_params-Answered id method (arr xs) quiet h =
      unless-Answered (some (str method)) id invalid_params _ h

  with_method-Answered :
      (id : Option Json) (version : Bool) (method params : Option Json)
      → ((m : String) → method ≡ some (str m) → starts_with "notifications/" m ≡ false)
      → has id ≡ true
      → Answered method (or_null id) (with_method server id version method params)
  with_method-Answered id true (some (str m)) params quiet h =
      with_params-Answered id m (params_of server params) (quiet m refl) h
  with_method-Answered id true none params quiet h = unless-Answered _ id invalid_request _ h
  with_method-Answered id true (some null) params quiet h = unless-Answered _ id invalid_request _ h
  with_method-Answered id true (some (bool b)) params quiet h =
      unless-Answered _ id invalid_request _ h
  with_method-Answered id true (some (num n)) params quiet h =
      unless-Answered _ id invalid_request _ h
  with_method-Answered id true (some (arr xs)) params quiet h =
      unless-Answered _ id invalid_request _ h
  with_method-Answered id true (some (obj fields)) params quiet h =
      unless-Answered _ id invalid_request _ h
  with_method-Answered id false method params quiet h = unless-Answered _ id invalid_request _ h

-- `m` is one of the served methods.
served_is_quiet : (m : String) → served m ≡ true → starts_with "notifications/" m ≡ false
unfolding strip_prefix
served_is_quiet m h = elim (Bool-cases (str_eq m "initialize")) [
  | inl y ↦ rw ((eq_iff m "initialize").0 y) refl
  | inr n1 ↦ elim (Bool-cases (str_eq m "tools/list")) [
    | inl y ↦ rw ((eq_iff m "tools/list").0 y) refl
    | inr n2 ↦ elim (Bool-cases (str_eq m "tools/call")) [
      | inl y ↦ rw ((eq_iff m "tools/call").0 y) refl
      | inr n3 ↦ elim (Bool-cases (str_eq m "resources/list")) [
        | inl y ↦ rw ((eq_iff m "resources/list").0 y) refl
        | inr n4 ↦ elim (Bool-cases (str_eq m "resources/read")) [
          | inl y ↦ rw ((eq_iff m "resources/read").0 y) refl
          | inr n5 ↦ absurd (let wrong : false ≡ true = ground arith in cc)
        ]
      ]
    ]
  ]
]

module _ {V : Type 0} (server : Server V) where
  -- A request object with an id, well formed or not, whose method is not a notification's gets
  -- exactly one reply: version 2.0, the same id, and a result or an error but not both. Only a
  -- message whose method is `resources/list` can raise instead, and only what the database raised.
  pub request-Answered :
      (request : Fields) (id : Json)
      → get "id" request ≡ some id
      → ((m : String)
          → get "method" request ≡ some (str m)
          → starts_with "notifications/" m ≡ false)
      → Answered server (get "method" request) id (handle_message server (obj request))
  unfolding handle_message handle_object
  request-Answered request id h quiet = rw h (
      with_method-Answered server (some id) (is_version (get "jsonrpc" request))
        (get "method" request) (get "params" request) quiet refl)

  -- A notification, a message with no id, of one of the five served methods, with an object of
  -- parameters, is not left without a reply: it is answered like a request, with a null id.
  pub served_notification-Answered :
      (request params : Fields) (m : String)
      → get "id" request ≡ none
      → is_version (get "jsonrpc" request) ≡ true
      → get "method" request ≡ some (str m)
      → served m ≡ true
      → params_of server (get "params" request) ≡ obj params
      → Answered server (get "method" request) null (handle_message server (obj request))
  unfolding handle_message handle_object
  served_notification-Answered request params m h v hm known hp =
      rw (h, v, hm, hp) (dispatch-Answered server none m params (served_is_quiet m known) known)
