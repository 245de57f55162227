-- ===== src/RateLimiter/Eviction.antt =====
-- One window against the history of the calls that it has admitted.
use gen_ai_backend.Prelude.{
  ℕ, suc, ◌+◌, ◌≤◌, ◌<◌, ◌≡◌, refl, sym, ◌∙◌, false, Bool-cases, inl, inr, List, [], ◌∷◌, ◌++◌, All,
  All-append, length, length-append, arith, leb, ltb, if◌then◌else◌,
}
use gen_ai_backend.RateLimiter.{Window, evict, evict_stale, is_full, add_call}

-- How many of the admitted calls a window of that width still holds at `now`.
abbrev pub count_recent : ℕ → ℕ → List ℕ → ℕ
count_recent seconds now [] = 0
count_recent seconds now (g ∷ gs) =
    let rest = count_recent seconds now gs in if ltb now (g + seconds) then suc rest else rest

count_recent-append :
    (seconds now : ℕ) (xs ys : List ℕ)
    → count_recent seconds now (xs ++ ys)
      ≡ count_recent seconds now xs + count_recent seconds now ys
count_recent-append seconds now [] ys = omega arith
count_recent-append seconds now (x ∷ xs) ys = ground (arith, count_recent-append seconds now xs ys)

-- No call is later than the one behind it, and none is later than `last`.
abbrev pub Ascending : ℕ → List ℕ → Type 0
Ascending last [] = Unit
Ascending last (c ∷ cs) = All (λ x. c ≤ x) cs × (c ≤ last) × Ascending last cs

All-recent :
    (seconds now c : ℕ) (cs : List ℕ)
    → All (λ x. c ≤ x) cs
    → now < c + seconds
    → count_recent seconds now cs ≡ length cs
All-recent seconds now c [] h l = refl
All-recent seconds now c (x ∷ cs) h l = ground (arith, All-recent seconds now c cs h.1 l)

-- The deque after `evict_stale` holds exactly the recent calls.
length-evict :
    (seconds now last : ℕ) (cs : List ℕ)
    → Ascending last cs
    → length (evict seconds now cs) ≡ count_recent seconds now cs
unfolding evict
length-evict seconds now last [] h = refl
length-evict seconds now last (c ∷ cs) h =
    ground (arith, length-evict seconds now last cs h.2, All-recent seconds now c cs h.0)

evict-Ascending :
    (seconds now last : ℕ) (cs : List ℕ) → Ascending last cs → Ascending last (evict seconds now cs)
unfolding evict
evict-Ascending seconds now last [] h = tt
evict-Ascending seconds now last (c ∷ cs) h = elim (Bool-cases (leb (c + seconds) now)) [
  | inl e ↦ rw e (evict-Ascending seconds now last cs h.2)
  | inr e ↦ rw e h
]

Ascending-later : (last now : ℕ) (cs : List ℕ) → last ≤ now → Ascending last cs → Ascending now cs
Ascending-later last now [] l h = tt
Ascending-later last now (c ∷ cs) l h = (h.0, omega arith, Ascending-later last now cs l h.2)

All-snoc :
    (c now : ℕ) (cs : List ℕ) → All (λ x. c ≤ x) cs → c ≤ now → All (λ x. c ≤ x) (cs ++ now ∷ [])
All-snoc c now cs h l = All-append (λ x. c ≤ x) cs (now ∷ []) h (l, tt)

Ascending-snoc :
    (last now : ℕ) (cs : List ℕ) → last ≤ now → Ascending last cs → Ascending now (cs ++ now ∷ [])
Ascending-snoc last now [] l h = (tt, omega arith, tt)
Ascending-snoc last now (c ∷ cs) l h =
    (All-snoc c now cs h.0 (omega arith), omega arith, Ascending-snoc last now cs l h.2)

-- What is evicted at `now` is stale at every later time too.
count_recent-evict :
    (seconds now later : ℕ) (cs : List ℕ)
    → now ≤ later
    → count_recent seconds later (evict seconds now cs) ≡ count_recent seconds later cs
unfolding evict
count_recent-evict seconds now later [] h = refl
count_recent-evict seconds now later (c ∷ cs) h =
    ground (arith, count_recent-evict seconds now later cs)

pub length-evict-le : (seconds now : ℕ) (cs : List ℕ) → length (evict seconds now cs) ≤ length cs
unfolding evict
length-evict-le seconds now [] = omega arith
length-evict-le seconds now (c ∷ cs) = ground (arith, length-evict-le seconds now cs)

pub count_recent-le-length :
    (seconds now : ℕ) (cs : List ℕ) → count_recent seconds now cs ≤ length cs
count_recent-le-length seconds now [] = omega arith
count_recent-le-length seconds now (c ∷ cs) = ground (arith, count_recent-le-length seconds now cs)

-- The deque of a window, `last` being the latest reading so far, stands for the admitted calls: it
-- is in order, it fits the limit, and from `last` on it holds as many recent calls as the history.
pub record Tracks (w : Window) (admitted : List ℕ) (last : ℕ) : Type 0 where
  pub ascending : Ascending last w.calls
  pub fits : length w.calls ≤ w.limit
  pub same :
      (now : ℕ)
      → last ≤ now
      → count_recent w.seconds now admitted ≡ count_recent w.seconds now w.calls

module _ (w : Window) (admitted : List ℕ) (last now : ℕ) (t : Tracks w admitted last)
    (l : last ≤ now) where
  pub evict_stale-Tracks : Tracks (evict_stale now w) admitted now
  unfolding evict_stale
  evict_stale-Tracks = record {
    ascending =
        evict-Ascending w.seconds now now w.calls (Ascending-later last now w.calls l t.ascending);
    fits = omega (arith, t.fits, length-evict-le w.seconds now w.calls);
    same = λ later h.
        t.same later (omega arith) ∙ sym (count_recent-evict w.seconds now later w.calls h);
  }

  -- The test of `acquire` counts the recent calls of the history.
  pub is_full-evict_stale :
      is_full (evict_stale now w) ≡ leb w.limit (count_recent w.seconds now admitted)
  unfolding evict_stale
  is_full-evict_stale = rw (t.same now l, length-evict w.seconds now last w.calls t.ascending)

pub add_call-Tracks :
    (w : Window) (admitted : List ℕ) (now : ℕ)
    → Tracks w admitted now
    → is_full w ≡ false
    → Tracks (add_call now w) (admitted ++ now ∷ []) now
add_call-Tracks w admitted now t h = record {
  ascending = Ascending-snoc now now w.calls (omega arith) t.ascending;
  fits = ground (arith, length-append w.calls (now ∷ []));
  same = λ later l. ground (
    arith,
    t.same later l,
    count_recent-append w.seconds later w.calls (now ∷ []),
    count_recent-append w.seconds later admitted (now ∷ []),
  );
}
