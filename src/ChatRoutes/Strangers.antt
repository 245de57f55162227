-- ===== src/ChatRoutes/Strangers.antt =====
-- narration-enrichment/src/narration_enrichment/main.py: the routes of chat for a key that has no session
-- of that id.
use gen_ai_backend.Prelude.{
  ℕ, String, str_eq, eq_iff, ◌≡◌, refl, Bool, true, false, ◌&&◌, Bool-cases, inl, inr, none, List,
  [], ◌∷◌, All, arith,
}
use gen_ai_backend.Prelude.Text.{Text}
use gen_ai_backend.ChatSessions.{
  ChatSession, find_owned, get_chat_session_owned_by, delete_chat_session,
}
use gen_ai_backend.Chat.{Provider}
use gen_ai_backend.ChatService.{Sources, World}
use gen_ai_backend.ChatRoutes.{not_found, chat_send_message, chat_get_history, chat_delete_session}

-- Every session of that id, if there is one, is another key's.
abbrev pub IsStranger : String → String → List ChatSession → Type 0
IsStranger key_hash session_id sessions =
    All (λ (s : ChatSession). s.id ≡ session_id → str_eq s.api_key_hash key_hash ≡ false) sessions

find_owned-IsStranger :
    (session_id key_hash : String) (sessions : List ChatSession)
    → IsStranger key_hash session_id sessions
    → find_owned session_id key_hash sessions ≡ none
find_owned-IsStranger session_id key_hash [] h = refl
find_owned-IsStranger session_id key_hash (s ∷ ss) h =
    elim (Bool-cases (str_eq s.id session_id && str_eq s.api_key_hash key_hash)) [
      | inl y ↦ absurd (
          let other = h.0 ((eq_iff s.id session_id).0 (ground arith)) in
          let wrong : false ≡ true = ground arith in cc)
      | inr n ↦ rw n (find_owned-IsStranger session_id key_hash ss h.1)
    ]

-- To a key that has no session of that id, whether another key has one or nobody, every route of one
-- session answers as if there were none, and changes nothing: a message and the history are 404, a
-- deletion is 204.
pub strangers_chat_nothing :
    {V S : Type 0} (sources : Sources V S) (p : Provider) (asked answered : ℕ × ℕ)
    (session_id key_hash : String) (message : Text) (foreign_keys : Bool) (w : World)
    → IsStranger key_hash session_id w.tables.sessions
    → (chat_send_message sources p asked answered session_id key_hash message w ≡ (w, not_found))
      × (chat_get_history session_id key_hash w.tables ≡ not_found)
      × (chat_delete_session foreign_keys session_id key_hash w.tables ≡ (w.tables, 204))
unfolding chat_send_message chat_get_history chat_delete_session delete_chat_session
    get_chat_session_owned_by
strangers_chat_nothing sources p asked answered session_id key_hash message foreign_keys w h =
    let hidden = find_owned-IsStranger session_id key_hash w.tables.sessions h in
    (rw hidden refl, rw hidden refl, rw hidden refl)
