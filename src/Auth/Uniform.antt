-- ===== src/Auth/Uniform.antt =====
-- Who is let in, and as whom.
use gen_ai_backend.Prelude.{
  ℕ, String, str_eq, eq_iff, ◌≡◌, refl, sym, ap, ◌∙◌, Bool, true, false, Bool-cases, inl, inr,
  Option, Option-cases, none, some, List, [], ◌∷◌, arith, if◌then◌else◌,
}
use gen_ai_backend.Auth.{
  ApiKey, Access, granted, rejected, find_key, touch, verify_and_touch, require_api_key,
}

abbrev is_known : Option ApiKey → Bool
is_known none = false
is_known (some k) = true

find_key-key_hash :
    (h : String) (ks : List ApiKey) (k : ApiKey) → find_key h ks ≡ some k → k.key_hash ≡ h
find_key-key_hash h [] k e = ground arith
find_key-key_hash h (x ∷ xs) k e = elim (Bool-cases (str_eq x.key_hash h)) [
  | inl y ↦ ground (arith, eq_iff x.key_hash h)
  | inr n ↦ find_key-key_hash h xs k (rw n at e)
]

find_key-touch :
    (now : ℕ) (h g : String) (ks : List ApiKey)
    → is_known (find_key g (touch now h ks)) ≡ is_known (find_key g ks)
find_key-touch now h g [] = refl
find_key-touch now h g (x ∷ xs) = ground (arith, find_key-touch now h g xs)

module _ (sha256 : String → String) (now : ℕ) (keys : List ApiKey) where
  verify_exact :
      (raw : String)
      → verify_and_touch sha256 now raw keys ≡ (
          if is_known (find_key (sha256 raw) keys)
          then (touch now (sha256 raw) keys, granted (sha256 raw))
          else (keys, rejected))
  unfolding verify_and_touch
  verify_exact raw = elim (Option-cases (find_key (sha256 raw) keys)) [
    | inl h ↦ rw h refl
    | inr (k, h) ↦
        let same = find_key-key_hash (sha256 raw) keys k h in
        rw (h, same, (eq_iff (sha256 raw) (sha256 raw)).1 refl) refl
  ]

  -- A caller is let in exactly when it sends a text that is not empty and whose digest is in the
  -- table, and then as that digest, with only that row stamped; every other caller, with a header or
  -- without, gets the same refusal and leaves the table as it is.
  pub access_exact :
      (x_api_key : Option String)
      → require_api_key sha256 now x_api_key keys ≡ (elim x_api_key [
        | none ↦ (keys, rejected)
        | some raw ↦
            if str_eq raw ""
            then (keys, rejected)
            else if is_known (find_key (sha256 raw) keys)
            then (touch now (sha256 raw) keys, granted (sha256 raw))
            else (keys, rejected)
      ])
  unfolding require_api_key
  access_exact none = refl
  access_exact (some raw) = elim (Bool-cases (str_eq raw "")) [
    | inl y ↦ rw y refl
    | inr n ↦ rw n (verify_exact raw)
  ]

abbrev identity : (String → String) → List ApiKey → Option String → Access
identity sha256 keys none = rejected
identity sha256 keys (some raw) =
    if str_eq raw ""
    then rejected
    else if is_known (find_key (sha256 raw) keys)
    then granted (sha256 raw)
    else rejected

module _ (sha256 : String → String) where
  answered_as :
      (now : ℕ) (keys : List ApiKey) (x : Option String)
      → (require_api_key sha256 now x keys).1 ≡ identity sha256 keys x
  answered_as now keys none = ap (λ r. r.1) (access_exact sha256 now keys none)
  answered_as now keys (some raw) =
      ap (λ r. r.1) (access_exact sha256 now keys (some raw)) ∙ ground arith

  known_after :
      (now : ℕ) (keys : List ApiKey) (x : Option String) (g : String)
      → is_known (find_key g (require_api_key sha256 now x keys).0) ≡ is_known (find_key g keys)
  known_after now keys none g =
      ap (λ r. is_known (find_key g r.0)) (access_exact sha256 now keys none)
  known_after now keys (some raw) g =
      ap (λ r. is_known (find_key g r.0)) (access_exact sha256 now keys (some raw))
      ∙ elim (Bool-cases (str_eq raw "")) [
        | inl y ↦ rw y refl
        | inr n ↦ elim (Bool-cases (is_known (find_key (sha256 raw) keys))) [
          | inl k ↦ rw (n, k) (find_key-touch now (sha256 raw) g keys)
          | inr u ↦ rw (n, u) refl
        ]
      ]

  same_identity :
      (keys keys' : List ApiKey) (x : Option String)
      → ((g : String) → is_known (find_key g keys') ≡ is_known (find_key g keys))
      → identity sha256 keys' x ≡ identity sha256 keys x
  same_identity keys keys' none h = refl
  same_identity keys keys' (some raw) h =
      ap (λ b. if str_eq raw "" then rejected else if b then granted (sha256 raw) else rejected)
        (h (sha256 raw))

-- The stamp of one caller's use changes no caller's access: who is let in, and as whom, is the same
-- after any call as before.
pub use_keeps_access :
    (sha256 : String → String) (now later : ℕ) (first second : Option String) (keys : List ApiKey)
    → (require_api_key sha256 later second (require_api_key sha256 now first keys).0).1
      ≡ (require_api_key sha256 later second keys).1
use_keeps_access sha256 now later first second keys =
    let keys' = (require_api_key sha256 now first keys).0 in
    answered_as sha256 later keys' second
    ∙ same_identity sha256 keys keys' second (known_after sha256 now keys first)
    ∙ sym (answered_as sha256 later keys second)
