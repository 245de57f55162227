-- ===== src/ChatSessions/Turns.antt =====
-- Appending a turn: it is the last one that a reader of its session sees.
use gen_ai_backend.Prelude.{
  ℕ, suc, ◌<◌, String, str_eq, ◌≡◌, refl, true, Bool-cases, inl, inr, none, some, List, [], ◌∷◌,
  ◌++◌, All, All-append, arith, if◌then◌else◌, Option-cases,
}
use gen_ai_backend.Prelude.Sort.{sort_by, sort_by-snoc}
use gen_ai_backend.ChatSessions.{
  ChatTurn, NewTurn, ChatTables, turns_of, turn_row, by_id, append_chat_turn, list_chat_turns,
  find_session,
}

-- Every id of the table is below the next one.
abbrev pub IsFresh : ℕ → List ChatTurn → Type 0
IsFresh n ts = All (λ (c : ChatTurn). c.id < n) ts

turns_of-snoc :
    (j : String) (row : ChatTurn) (ts : List ChatTurn)
    → turns_of j (ts ++ row ∷ [])
      ≡ (if str_eq row.session_id j then turns_of j ts ++ row ∷ [] else turns_of j ts)
turns_of-snoc j row [] = refl
turns_of-snoc j row (c ∷ cs) = ground (arith, turns_of-snoc j row cs)

-- All rows of a session sort before a row of the next id.
before_next :
    (j : String) (row : ChatTurn) (ts : List ChatTurn)
    → IsFresh row.id ts
    → All (λ c. by_id c row ≡ true) (turns_of j ts)
before_next j row [] h = tt
before_next j row (c ∷ cs) h = elim (Bool-cases (str_eq c.session_id j)) [
  | inl y ↦ rw y (ground arith, before_next j row cs h.1)
  | inr n ↦ rw n (before_next j row cs h.1)
]

listed :
    (j : String) (row : ChatTurn) (ts : List ChatTurn)
    → IsFresh row.id ts
    → sort_by by_id (turns_of j (ts ++ row ∷ [])) ≡ (
        if str_eq row.session_id j
        then sort_by by_id (turns_of j ts) ++ row ∷ []
        else sort_by by_id (turns_of j ts))
listed j row ts h = elim (Bool-cases (str_eq row.session_id j)) [
  | inl y ↦
      rw (turns_of-snoc j row ts, y)
        (sort_by-snoc by_id row (turns_of j ts) (before_next j row ts h))
  | inr n ↦ rw (turns_of-snoc j row ts, n) refl
]

IsFresh-suc : (n : ℕ) (ts : List ChatTurn) → IsFresh n ts → IsFresh (suc n) ts
IsFresh-suc n [] h = tt
IsFresh-suc n (c ∷ cs) h = (omega (arith, h.0), IsFresh-suc n cs h.1)

IsFresh-of :
    {t u : ChatTables} → some u ≡ some t → IsFresh u.next_id u.turns → IsFresh t.next_id t.turns
IsFresh-of {t} {u} h f = let e : u ≡ t = cc h in rw (← e) f

-- What an appended turn is to the readers of all sessions: the session's own reader sees it as the
-- last, after what was there, and no other session's reader sees a change.
pub record IsAppended (session_id : String) (row : ChatTurn) (t t' : ChatTables) : Type 0 where
  pub seen :
      (j : String)
      → list_chat_turns j t'
        ≡ (if str_eq session_id j then list_chat_turns j t ++ row ∷ [] else list_chat_turns j t)
  pub fresh : IsFresh t'.next_id t'.turns

-- An append to a table whose ids are all below the next id either finds no session, or the turn, and
-- nothing else, is appended to what every reader sees and the ids stay below the next one.
pub append_chat_turn-IsAppended :
    (active_at created_at : ℕ) (session_id : String) (new : NewTurn) (t t' : ChatTables)
    → IsFresh t.next_id t.turns
    → append_chat_turn active_at created_at session_id new t ≡ some t'
    → IsAppended session_id (turn_row t.next_id created_at session_id new) t t'
unfolding append_chat_turn list_chat_turns
append_chat_turn-IsAppended active_at created_at session_id new t t' f h =
    let row = turn_row t.next_id created_at session_id new in
    elim (Option-cases (find_session session_id t.sessions)) [
      | inl missing ↦ absurd (let wrong : none ≡ some t' = rw missing at h in cc)
      | inr (s, found) ↦
          let h' = rw found at h in
          record {
            seen = λ j. ground (arith, h', listed j row t.turns f);
            fresh = IsFresh-of h' (
                All-append (λ (c : ChatTurn). c.id < suc t.next_id) t.turns (row ∷ [])
                  (IsFresh-suc t.next_id t.turns f) (omega arith, tt));
          }
    ]
