-- ===== src/Auth.antt =====
-- narration-enrichment/src/narration_enrichment/auth.py: `require_api_key`, over the table `api_keys` of
-- db.py. `sha256` is the hex digest of hashlib. hmac.compare_digest is the test of equal texts.
pub mod Uniform
mod Examples
use gen_ai_backend.Prelude.{
  ℕ, String, str_eq, Bool, true, false, Option, none, some, List, [], ◌∷◌, ◌++◌, if◌then◌else◌,
}

pub record ApiKey : Type 0 where
  pub key_hash : String
  pub label : String
  pub created_at : ℕ
  pub last_used_at : Option ℕ

-- The identity of the caller, or the one HTTPException of `_reject`.
pub data Access : Type 0 where
  granted : String → Access
  rejected : Access

pub insert_api_key : ℕ → String → String → List ApiKey → List ApiKey
insert_api_key now key_hash label keys =
    keys
    ++ record { key_hash = key_hash; label = label; created_at = now; last_used_at = none } ∷ []

abbrev pub find_key : String → List ApiKey → Option ApiKey
find_key h [] = none
find_key h (k ∷ ks) = if str_eq k.key_hash h then some k else find_key h ks

-- `row.last_used_at = …`, on the row of that primary key.
abbrev pub touch : ℕ → String → List ApiKey → List ApiKey
touch now h [] = []
touch now h (k ∷ ks) =
    (if str_eq k.key_hash h then record k { last_used_at = some now } else k) ∷ touch now h ks

abbrev verify_found : ℕ → String → List ApiKey → Option ApiKey → List ApiKey × Access
verify_found now candidate keys none = (keys, rejected)
verify_found now candidate keys (some row) =
    if str_eq row.key_hash candidate
    then (touch now row.key_hash keys, granted row.key_hash)
    else (keys, rejected)

module _ (sha256 : String → String) where
  unfoldable pub verify_and_touch : ℕ → String → List ApiKey → List ApiKey × Access
  verify_and_touch now raw keys = verify_found now (sha256 raw) keys (find_key (sha256 raw) keys)

  abbrev pub require_header : ℕ → List ApiKey → Option String → List ApiKey × Access
  require_header now keys none = (keys, rejected)
  require_header now keys (some raw) =
      if str_eq raw "" then (keys, rejected) else verify_and_touch now raw keys

  unfoldable pub require_api_key : ℕ → Option String → List ApiKey → List ApiKey × Access
  require_api_key now x_api_key keys = require_header now keys x_api_key
