-- ===== src/LoadShed/Cap.antt =====
-- The cap over every sequence of acquisitions and releases.
use gen_ai_backend.Prelude.{
  ℕ, ◌≤◌, ◌≡◌, refl, ◌∙◌, Bool-cases, Option, none, some, List, [], ◌∷◌, inl, inr, arith, leb,
}
use gen_ai_backend.LoadShed.{InFlightLimiter, new_limiter, acquire_slot, release_slot}

pub data Use : Type 0 where
  take give : Use

abbrev kept_or : InFlightLimiter → Option InFlightLimiter → InFlightLimiter
kept_or l none = l
kept_or l (some l') = l'

abbrev use_slot : Use → InFlightLimiter → InFlightLimiter
use_slot take l = kept_or l (acquire_slot l)
use_slot give l = release_slot l

unfoldable pub use_slots : List Use → InFlightLimiter → InFlightLimiter
use_slots [] l = l
use_slots (u ∷ us) l = use_slots us (use_slot u l)

use_slot_capped :
    (u : Use) (l : InFlightLimiter)
    → l.in_flight ≤ l.max
    → ((use_slot u l).max ≡ l.max) × ((use_slot u l).in_flight ≤ l.max)
unfolding acquire_slot release_slot
use_slot_capped take l h = elim (Bool-cases (leb l.max l.in_flight)) [
  | inl y ↦ rw y (refl, h)
  | inr n ↦ rw n (refl, ground arith)
]
use_slot_capped give l h = ground arith

use_slots_capped :
    (us : List Use) (l : InFlightLimiter)
    → l.in_flight ≤ l.max
    → ((use_slots us l).max ≡ l.max) × ((use_slots us l).in_flight ≤ l.max)
unfolding use_slots
use_slots_capped [] l h = (refl, h)
use_slots_capped (u ∷ us) l h =
    let (same, most) = use_slot_capped u l h in
    let (same', most') = use_slots_capped us (use_slot u l) (omega (arith, same)) in
    (same' ∙ same, omega (arith, same))

-- Whatever sequence of acquisitions and releases, doubled releases included, a new limiter goes
-- through, no more slots are in use than its maximum.
pub cap_holds : (max : ℕ) (us : List Use) → (use_slots us (new_limiter max)).in_flight ≤ max
unfolding new_limiter
cap_holds max us = (use_slots_capped us (new_limiter max) (omega arith)).1
