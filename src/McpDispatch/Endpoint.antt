-- ===== src/McpDispatch/Endpoint.antt =====
-- The route: what a caller without an identity gets.
use gen_ai_backend.Prelude.{
  ℕ, String, str_eq, ◌≡◌, ◌⊎◌, refl, true, Bool-cases, inl, inr, Option, none, some, List,
}
use gen_ai_backend.Errors.{returned}
use gen_ai_backend.Auth.{
  ApiKey, Access, granted, rejected, verify_and_touch, require_header, require_api_key,
}
use gen_ai_backend.Json.{str, Fields, get}
use gen_ai_backend.McpServer.{Server}
use gen_ai_backend.McpDispatch.{is_work, identified, with_key, mcp_endpoint}

work_is_work :
    (m : String)
    → (m ≡ "tools/call") ⊎ (m ≡ "resources/read")
    → is_work (some (str m)) ≡ returned true
work_is_work m (inl e) = rw e refl
work_is_work m (inr e) = rw e refl

module _ (sha256 : String → String) {V : Type 0} (server server' : Server V) where
  identified_same :
      (request : Fields) (verified : List ApiKey × Access)
      → verified.1 ≡ rejected
      → identified sha256 server request verified ≡ identified sha256 server' request verified
  identified_same request (keys, rejected) h = refl
  identified_same request (keys, granted k) h = cc

  with_key_same :
      (now : ℕ) (request : Fields) (keys : List ApiKey) (x_api_key : Option String)
      → (require_header sha256 now keys x_api_key).1 ≡ rejected
      → with_key sha256 server now request keys x_api_key
        ≡ with_key sha256 server' now request keys x_api_key
  with_key_same now request keys none h = refl
  with_key_same now request keys (some raw) h = elim (Bool-cases (str_eq raw "")) [
    | inl y ↦ rw y refl
    | inr n ↦ rw n (identified_same request (verify_and_touch sha256 now raw keys) (rw n at h))
  ]

  -- A message whose method is `tools/call` or `resources/read`, under a key that `require_api_key`
  -- rejects, gets an answer that no tool, document or menu of the server has a part in: two servers
  -- that differ in all of them answer alike, and leave the keys alike.
  pub work_needs_identity :
      (now : ℕ) (request : Fields) (x_api_key : Option String) (keys : List ApiKey)
      → (m : String) → get "method" request ≡ some (str m)
      → (m ≡ "tools/call") ⊎ (m ≡ "resources/read")
      → (require_api_key sha256 now x_api_key keys).1 ≡ rejected
      → mcp_endpoint sha256 server now request x_api_key keys
        ≡ mcp_endpoint sha256 server' now request x_api_key keys
  unfolding mcp_endpoint require_api_key
  work_needs_identity now request x_api_key keys m named work h =
      rw (named, work_is_work m work) (with_key_same now request keys x_api_key h)
