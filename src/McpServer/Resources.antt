-- ===== src/McpServer/Resources.antt =====
-- Listing and reading the resources agree, and so do the menu and the whitelist of the tools.
use gen_ai_backend.Prelude.{ℕ, String, str_eq, ◌≡◌, some, List, [], ◌∷◌, ◌+◌, Option, if◌then◌else◌}
use gen_ai_backend.PolicyStore.{PolicyDoc, Tables, find_doc, get_policy_doc}
use gen_ai_backend.Json.{Json, str, arr, obj, Items, nil, cons, Fields, empty, field, get}
use gen_ai_backend.McpServer.{Server, ok_reply, concat, document_text, resources_read}

-- How often a list of resources gives a uri, and how many documents have that uri.
abbrev uri_counts : String → Option Json → ℕ
uri_counts uri (some (str given)) = if str_eq given uri then 1 else 0
uri_counts uri _ = 0

abbrev entry_counts : String → Json → ℕ
entry_counts uri (obj entry) = uri_counts uri (get "uri" entry)
entry_counts uri _ = 0

abbrev pub times_listed : String → Items → ℕ
times_listed uri nil = 0
times_listed uri (cons r rs) = entry_counts uri r + times_listed uri rs

abbrev doc_counts : String → PolicyDoc → ℕ
doc_counts uri d = if str_eq (concat "policy://" d.doc_id) uri then 1 else 0

abbrev pub times_held : String → List PolicyDoc → ℕ
times_held uri [] = 0
times_held uri (d ∷ ds) = doc_counts uri d + times_held uri ds

-- A document with that id is found.
abbrev IsFound : List PolicyDoc → PolicyDoc → Type 0
IsFound docs d = (e : PolicyDoc) × (find_doc d.doc_id docs ≡ some e) × (e.doc_id ≡ d.doc_id)

module _ {V : Type 0} where
  -- A listed resource names a uri, and a `resources/read` of that uri answers with the text of a
  -- document of the table, the one whose id the uri ends in.
  pub record IsReadable (server : Server V) (id : Json) (t : Tables V) (listed : Json)
      : Type 0 where
    pub entry : Fields
    pub is_entry : listed ≡ obj entry
    pub uri : String
    pub named : get "uri" entry ≡ some (str uri)
    pub document : PolicyDoc
    pub held : uri ≡ concat "policy://" document.doc_id
    pub stored : get_policy_doc document.doc_id t ≡ some document
    pub read :
        resources_read server id (field "uri" (str uri) empty)
        ≡ ok_reply id (
            obj (
              field "contents"
                (arr (
                  cons
                    (obj (
                      field "uri" (str uri) (
                        field "mimeType"
                          (str "text/plain")
                          (field "text" (str (document_text server document t)) empty))))
                    nil))
                empty))

  abbrev pub AllReadable : Server V → Json → Tables V → Items → Type 0
  AllReadable server id t nil = Unit
  AllReadable server id t (cons r rs) = IsReadable server id t r × AllReadable server id t rs
