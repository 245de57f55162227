-- ===== src/EnrichRoute/Examples.antt =====
-- Requests under one key, one of them with another body, and a full server.
use gen_ai_backend.Prelude.{ℕ, String, ◌≡◌, refl, false, none, some, [], ◌∷◌}
use gen_ai_backend.Prelude.Text.{Text}
use gen_ai_backend.Errors.{
  plain, returned, raised, timeout, rate_limited, api_error, instructor_retry,
}
use gen_ai_backend.EnrichRoute.{
  Server, EnrichRequest, ok, http, complete, enrich, error_reply, enrich_batch_inner,
}
use gen_ai_backend.EnrichRoute.Slots.{slot_returned}
use gen_ai_backend.EnrichRoute.Replays.{one_canonical_answer}

abbrev sha256 : Text → String
sha256 [] = "empty"
sha256 (c ∷ cs) = "text"

abbrev server : Server ℕ
server = record { shed = record { max = 2; in_flight = 1 }; keys = [] }

abbrev full : Server ℕ
full = record server { shed = record { max = 2; in_flight = 2 } }

abbrev request : EnrichRequest
request = record { narration = 65 ∷ []; idempotency_key = some "k" }

abbrev other_body : EnrichRequest
other_body = record request { narration = [] }

statuses :
    (error_reply {A = ℕ} (plain (rate_limited 2500)) ≡ http 429 (some 3))
    × (error_reply {A = ℕ} (record { kind = instructor_retry; cause = some (api_error 503) })
        ≡ http 503 none)
    × (error_reply {A = ℕ} (plain instructor_retry) ≡ http 422 none)
unfolding error_reply
statuses = (refl, refl, refl)

half_failed :
    (enrich_batch_inner {A = ℕ}
      ((65 ∷ [], returned 1) ∷ (66 ∷ [], raised (plain timeout)) ∷ [])).failed
    ≡ 1
unfolding enrich_batch_inner
half_failed = refl

slot_returned_example : (enrich sha256 request (raised (plain timeout)) server).0.shed ≡ server.shed
slot_returned_example = slot_returned sha256 request (raised (plain timeout)) server

one_canonical_answer_example :
    let (s1, reply1) = complete sha256 request (returned 4) server in
    let (s2, reply2) = complete sha256 other_body (returned 5) s1 in
    (reply1 ≡ ok false 4)
    × (reply2 ≡ ok false 4)
    × (enrich sha256 other_body (returned 6) s2 ≡ (s2, http 422 none))
one_canonical_answer_example =
    one_canonical_answer sha256 "k" request other_body other_body 4 5 (returned 6) server refl refl
      refl refl refl
