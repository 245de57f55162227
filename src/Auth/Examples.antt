-- ===== src/Auth/Examples.antt =====
-- A table of one key.
use gen_ai_backend.Prelude.{String, str_eq, ◌≡◌, refl, some, List, [], if◌then◌else◌}
use gen_ai_backend.Auth.{ApiKey, granted, insert_api_key, require_api_key, verify_and_touch}

abbrev sha256 : String → String
sha256 raw = if str_eq raw "secret" then "h" else "g"

abbrev keys : List ApiKey
keys = insert_api_key 1 "h" "client" []

lets_in : (require_api_key sha256 2 (some "secret") keys).1 ≡ granted "h"
unfolding require_api_key verify_and_touch insert_api_key
lets_in = refl
