-- ===== src/RateLimiter/History.antt =====
-- The limiter against the history of the calls that it has admitted, over runs of `acquire`.
use gen_ai_backend.Prelude.{
  ℕ, ◌≤◌, ◌≡◌, refl, ◌∙◌, Bool, true, false, Bool-cases, ◌&&◌, inl, inr, List, [], ◌∷◌, ◌++◌, All,
  arith, leb, ltb, if◌then◌else◌,
}
use gen_ai_backend.RateLimiter.{
  Window, RateLimiter, Outcome, acquired, per_minute, per_day, Scope, one_minute, one_day,
  evict_stale, is_full, add_call, new, acquire, refuse,
}
use gen_ai_backend.RateLimiter.Eviction.{
  count_recent, Ascending, Tracks, evict_stale-Tracks, is_full-evict_stale, add_call-Tracks,
}

abbrev pub is_acquired : Outcome → Bool
is_acquired acquired = true
is_acquired _ = false

-- A limiter and the times of the calls that it has let through.
pub record Run : Type 0 where
  pub limiter : RateLimiter
  pub admitted : List ℕ

unfoldable pub admit : ℕ → Run → Run
admit now s =
    let (r, o) = acquire now s.limiter in
    record { limiter = r; admitted = if is_acquired o then s.admitted ++ now ∷ [] else s.admitted }

unfoldable pub admit_all : List ℕ → Run → Run
admit_all [] s = s
admit_all (t ∷ ts) s = admit_all ts (admit t s)

abbrev pub start : ℕ → ℕ → Run
start minute_limit day_limit = record { limiter = new minute_limit day_limit; admitted = [] }

-- Both deques stand for the history, with the widths and limits that the constructor gave.
pub record IsFaithful (minute_limit day_limit last : ℕ) (s : Run) : Type 0 where
  pub minute_tracks : Tracks s.limiter.minute s.admitted last
  pub day_tracks : Tracks s.limiter.day s.admitted last
  pub minute_width : s.limiter.minute.seconds ≡ one_minute
  pub day_width : s.limiter.day.seconds ≡ one_day
  pub minute_limit_kept : s.limiter.minute.limit ≡ minute_limit
  pub day_limit_kept : s.limiter.day.limit ≡ day_limit

start-IsFaithful :
    (minute_limit day_limit : ℕ)
    → IsFaithful minute_limit day_limit 0 (start minute_limit day_limit)
unfolding new
start-IsFaithful minute_limit day_limit = record {
  minute_tracks = record { ascending = tt; fits = omega arith; same = λ now l. refl };
  day_tracks = record { ascending = tt; fits = omega arith; same = λ now l. refl };
  minute_width = refl;
  day_width = refl;
  minute_limit_kept = refl;
  day_limit_kept = refl;
}

is_acquired-refuse :
    (scope : Scope) (now : ℕ) (w : Window) (cs : List ℕ)
    → is_acquired (refuse scope now w cs) ≡ false
unfolding refuse
is_acquired-refuse scope now w [] = refl
is_acquired-refuse scope now w (c ∷ cs) = refl

-- The windows after the two evictions that `acquire` starts with.
evict_both :
    (s : Run) (now minute_limit day_limit last : ℕ)
    → last ≤ now
    → IsFaithful minute_limit day_limit last s
    → IsFaithful minute_limit day_limit now (record {
      limiter = record {
        minute = evict_stale now s.limiter.minute;
        day = evict_stale now s.limiter.day;
      };
      admitted = s.admitted;
    })
unfolding evict_stale
evict_both s now minute_limit day_limit last l f = record {
  minute_tracks = evict_stale-Tracks s.limiter.minute s.admitted last now f.minute_tracks l;
  day_tracks = evict_stale-Tracks s.limiter.day s.admitted last now f.day_tracks l;
  minute_width = f.minute_width;
  day_width = f.day_width;
  minute_limit_kept = f.minute_limit_kept;
  day_limit_kept = f.day_limit_kept;
}

add_both :
    (s : Run) (now minute_limit day_limit : ℕ)
    → IsFaithful minute_limit day_limit now s
    → is_full s.limiter.minute ≡ false
    → is_full s.limiter.day ≡ false
    → IsFaithful minute_limit day_limit now (record {
      limiter = record { minute = add_call now s.limiter.minute; day = add_call now s.limiter.day };
      admitted = s.admitted ++ now ∷ [];
    })
add_both s now minute_limit day_limit f hm hd = record {
  minute_tracks = add_call-Tracks s.limiter.minute s.admitted now f.minute_tracks hm;
  day_tracks = add_call-Tracks s.limiter.day s.admitted now f.day_tracks hd;
  minute_width = f.minute_width;
  day_width = f.day_width;
  minute_limit_kept = f.minute_limit_kept;
  day_limit_kept = f.day_limit_kept;
}

module _ (minute_limit day_limit last now : ℕ) (s : Run)
    (f : IsFaithful minute_limit day_limit last s) (l : last ≤ now) where
  -- The decision of `acquire`, in terms of the history.
  pub acquire_decides : is_acquired (acquire now s.limiter).1 ≡ (
      ltb (count_recent one_minute now s.admitted) minute_limit
      && ltb (count_recent one_day now s.admitted) day_limit)
  unfolding acquire
  acquire_decides =
      let m = evict_stale now s.limiter.minute in
      let d = evict_stale now s.limiter.day in
      let minute_full : is_full m ≡ leb minute_limit (count_recent one_minute now s.admitted) =
        is_full-evict_stale s.limiter.minute s.admitted last now f.minute_tracks l
        ∙ cc (f.minute_width, f.minute_limit_kept) in
      let day_full : is_full d ≡ leb day_limit (count_recent one_day now s.admitted) =
        is_full-evict_stale s.limiter.day s.admitted last now f.day_tracks l
        ∙ cc (f.day_width, f.day_limit_kept) in
      ground (
        arith,
        minute_full,
        day_full,
        is_acquired-refuse per_minute now m m.calls,
        is_acquired-refuse per_day now d d.calls,
      )

  admit-IsFaithful : IsFaithful minute_limit day_limit now (admit now s)
  unfolding admit acquire
  admit-IsFaithful =
      let m = evict_stale now s.limiter.minute in
      let d = evict_stale now s.limiter.day in
      let evicted = evict_both s now minute_limit day_limit last l f in
      elim (Bool-cases (is_full m)) [
        | inl hm ↦ rw (hm, is_acquired-refuse per_minute now m m.calls) evicted
        | inr hm ↦ rw hm (elim (Bool-cases (is_full d)) [
          | inl hd ↦ rw (hd, is_acquired-refuse per_day now d d.calls) evicted
          | inr hd ↦ rw hd (add_both _ now minute_limit day_limit evicted hm hd)
        ])
      ]

admit_all-IsFaithful :
    (minute_limit day_limit last now : ℕ) (ts : List ℕ) (s : Run)
    → IsFaithful minute_limit day_limit last s
    → last ≤ now
    → All (λ t. last ≤ t) ts
    → Ascending now ts
    → (last' : ℕ) × (last' ≤ now) × IsFaithful minute_limit day_limit last' (admit_all ts s)
unfolding admit_all
admit_all-IsFaithful minute_limit day_limit last now [] s f h later asc = (last, h, f)
admit_all-IsFaithful minute_limit day_limit last now (t ∷ ts) s f h later asc =
    admit_all-IsFaithful minute_limit day_limit t now ts (admit t s)
      (admit-IsFaithful minute_limit day_limit last t s f later.0) asc.1 asc.0 asc.2

All-zero-le : (ts : List ℕ) → All (λ t. 0 ≤ t) ts
All-zero-le [] = tt
All-zero-le (t ∷ ts) = (omega arith, All-zero-le ts)

-- After any run from a new limiter, up to a reading that is not before the last one.
pub run-IsFaithful :
    (minute_limit day_limit now : ℕ) (ts : List ℕ)
    → Ascending now ts
    → (last : ℕ) × (last ≤ now)
      × IsFaithful minute_limit day_limit last (admit_all ts (start minute_limit day_limit))
run-IsFaithful minute_limit day_limit now ts asc =
    admit_all-IsFaithful minute_limit day_limit 0 now ts (start minute_limit day_limit)
      (start-IsFaithful minute_limit day_limit) (omega arith) (All-zero-le ts) asc
