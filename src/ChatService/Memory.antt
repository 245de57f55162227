-- ===== src/ChatService/Memory.antt =====
-- What of the conversation the prompt repeats.
use gen_ai_backend.Prelude.{
  ◌-◌, ◌≤◌, String, eq_iff, ◌≡◌, refl, ap, ◌∙◌, List, [], ◌∷◌, ◌++◌, drop, length, length-drop,
  arith,
}
use gen_ai_backend.ChatSessions.{user, ChatTurn, ChatTables, list_chat_turns}
use gen_ai_backend.ChatSessions.Turns.{IsAppended}
use gen_ai_backend.ChatService.{prior_turns, memory_turns, chat_memory_max_turns}

prior_turns-snoc :
    (ts : List ChatTurn) (row : ChatTurn) → row.role ≡ user → prior_turns (ts ++ row ∷ []) ≡ ts
unfolding prior_turns
prior_turns-snoc [] row h = ground (arith, h)
prior_turns-snoc (t ∷ []) row h = ap (λ us. t ∷ us) (prior_turns-snoc [] row h)
prior_turns-snoc (t ∷ u ∷ us) row h = ap (λ vs. t ∷ vs) (prior_turns-snoc (u ∷ us) row h)

-- Once the user's question is appended to a session, the memory of the prompt is the last turns that
-- its reader saw before, at most six of them, and the question itself is not among them.
pub memory_excludes_question :
    (session_id : String) (row : ChatTurn) (t t' : ChatTables)
    → row.role ≡ user
    → IsAppended session_id row t t'
    → let before = list_chat_turns session_id t in
      let memory = memory_turns (list_chat_turns session_id t') in
      (memory ≡ drop (length before - chat_memory_max_turns) before)
      × (length memory ≤ chat_memory_max_turns)
unfolding memory_turns
memory_excludes_question session_id row t t' h a =
    let before = list_chat_turns session_id t in
    let after : list_chat_turns session_id t' ≡ before ++ row ∷ [] =
      rw ((eq_iff session_id session_id).1 refl) at (a.seen session_id) in
    let prior : prior_turns (list_chat_turns session_id t') ≡ before =
      ap prior_turns after ∙ prior_turns-snoc before row h in
    rw prior (refl, omega (arith, length-drop (length before - 6) before))
