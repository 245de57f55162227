-- ===== src/LoadShed/Examples.antt =====
-- A limiter of two slots.
use gen_ai_backend.Prelude.{◌≡◌, refl, List, [], ◌∷◌}
use gen_ai_backend.LoadShed.{new_limiter, acquire_slot, release_slot}
use gen_ai_backend.LoadShed.Cap.{Use, take, give, use_slots}

abbrev uses : List Use
uses = give ∷ take ∷ take ∷ take ∷ []

full : (use_slots uses (new_limiter 2)).in_flight ≡ 2
unfolding use_slots new_limiter acquire_slot release_slot
full = refl
