-- ===== src/RateLimiter/Bounds.antt =====
-- What a caller of the limiter may rely on: both windows are bounded at every moment, no call is
-- refused without need, and a refused call that waits as long as it is told finds room.
use gen_ai_backend.Prelude.{
  ℕ, ◌+◌, ◌≤◌, ◌≡◌, refl, false, Bool-cases, ◌&&◌, inl, inr, List, [], ◌∷◌, length, arith, ltb,
}
use gen_ai_backend.RateLimiter.{
  Window, RateLimiter, acquired, exceeded, Scope, per_minute, per_day, one_minute, one_day, evict,
  evict_stale, is_full, acquire, refuse,
}
use gen_ai_backend.RateLimiter.Eviction.{
  count_recent, Ascending, Tracks, evict_stale-Tracks, count_recent-le-length, length-evict-le,
}
use gen_ai_backend.RateLimiter.History.{
  is_acquired, start, admit_all, acquire_decides, run-IsFaithful,
}

recent_bounded :
    (w : Window) (admitted : List ℕ) (last now : ℕ)
    → Tracks w admitted last
    → last ≤ now
    → count_recent w.seconds now admitted ≤ w.limit
recent_bounded w admitted last now t l =
    rw (t.same now l) (omega (arith, t.fits, count_recent-le-length w.seconds now w.calls))

-- After calls at any non-decreasing readings, at any `now` that is not before the last of them, the
-- calls that were let through less than a minute before `now` are at most the limit per minute, and
-- those let through less than a day before it are at most the limit per day.
pub both_windows_bounded :
    (minute_limit day_limit now : ℕ) (ts : List ℕ)
    → Ascending now ts
    → let s = admit_all ts (start minute_limit day_limit) in
      (count_recent one_minute now s.admitted ≤ minute_limit)
      × (count_recent one_day now s.admitted ≤ day_limit)
both_windows_bounded minute_limit day_limit now ts asc =
    let (last, l, f) = run-IsFaithful minute_limit day_limit now ts asc in
    let s = admit_all ts (start minute_limit day_limit) in
    let m = recent_bounded s.limiter.minute s.admitted last now f.minute_tracks l in
    let d = recent_bounded s.limiter.day s.admitted last now f.day_tracks l in
    (
      ground (arith, m, f.minute_width, f.minute_limit_kept),
      ground (arith, d, f.day_width, f.day_limit_kept),
    )

-- After calls at any non-decreasing readings, a call at a reading not before them is let through
-- exactly when fewer calls than the limit were let through in the last minute and in the last day.
pub acquire_exact :
    (minute_limit day_limit now : ℕ) (ts : List ℕ)
    → Ascending now ts
    → let s = admit_all ts (start minute_limit day_limit) in
      is_acquired (acquire now s.limiter).1 ≡ (
        ltb (count_recent one_minute now s.admitted) minute_limit
        && ltb (count_recent one_day now s.admitted) day_limit)
acquire_exact minute_limit day_limit now ts asc =
    let (last, l, f) = run-IsFaithful minute_limit day_limit now ts asc in
    acquire_decides minute_limit day_limit last now (admit_all ts (start minute_limit day_limit)) f
      l

abbrev pub window_of : Scope → RateLimiter → Window
window_of per_minute r = r.minute
window_of per_day r = r.day

room_after_wait :
    (scope of : Scope) (w : Window) (now retry : ℕ) (cs : List ℕ)
    → w.calls ≡ cs
    → length cs ≤ w.limit
    → refuse of now w cs ≡ exceeded scope retry
    → (scope ≡ of) × (is_full (evict_stale (now + retry) w) ≡ false)
unfolding refuse evict_stale evict
room_after_wait scope of w now retry [] c h e = cc
room_after_wait scope of w now retry (x ∷ cs) c h e =
    rw c (ground (arith, length-evict-le w.seconds (now + retry) cs))

-- A refused call at windows that fit their limits finds room in the window that it names.
room_in_named :
    (scope : Scope) (now retry : ℕ) (r : RateLimiter)
    → let m = evict_stale now r.minute in
      let d = evict_stale now r.day in
      length m.calls ≤ m.limit
      → length d.calls ≤ d.limit
      → (acquire now r).1 ≡ exceeded scope retry
      → is_full (evict_stale (now + retry) (window_of scope (acquire now r).0)) ≡ false
unfolding acquire
room_in_named scope now retry r fm fd e = elim (Bool-cases (is_full m)) [
  | inl hm ↦ rw hm (named per_minute m fm refl (rw hm at e))
  | inr hm ↦ elim (Bool-cases (is_full d)) [
    | inl hd ↦ rw (hm, hd) (named per_day d fd refl (rw (hm, hd) at e))
    | inr hd ↦ absurd (let f : acquired ≡ exceeded scope retry = rw (hm, hd) at e in cc)
  ]
]
  where
    m : Window
    m = evict_stale now r.minute

    d : Window
    d = evict_stale now r.day

    named :
        (of : Scope) (w : Window)
        → length w.calls ≤ w.limit
        → window_of of (record { minute = m; day = d }) ≡ w
        → refuse of now w w.calls ≡ exceeded scope retry
        → is_full (evict_stale (now + retry) (window_of scope (record { minute = m; day = d })))
          ≡ false
    named of w fits which e' =
        let (same, room) = room_after_wait scope of w now retry w.calls refl fits e' in
        rw (same, which) room

-- After calls at any non-decreasing readings, a call that is refused with a `retry_after` for a
-- window finds that window not full once so much time has passed and nothing else was let through.
pub retry_after_honest :
    (minute_limit day_limit now retry : ℕ) (scope : Scope) (ts : List ℕ)
    → Ascending now ts
    → let r = (admit_all ts (start minute_limit day_limit)).limiter in
      (acquire now r).1 ≡ exceeded scope retry
      → is_full (evict_stale (now + retry) (window_of scope (acquire now r).0)) ≡ false
retry_after_honest minute_limit day_limit now retry scope ts asc e =
    let (last, l, f) = run-IsFaithful minute_limit day_limit now ts asc in
    let s = admit_all ts (start minute_limit day_limit) in
    room_in_named scope now retry s.limiter
      (evict_stale-Tracks s.limiter.minute s.admitted last now f.minute_tracks l).fits
      (evict_stale-Tracks s.limiter.day s.admitted last now f.day_tracks l).fits e
