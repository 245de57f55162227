-- ===== src/ChatRoutes.antt =====
-- narration-enrichment/src/narration_enrichment/main.py: the routes of chat, behind the key that
-- `require_api_key` resolved.
pub mod Message
pub mod Strangers
mod Examples
use gen_ai_backend.Prelude.{ℕ, ◌+◌, String, Bool, Option, none, some, List}
use gen_ai_backend.Prelude.Text.{Text, strip}
use Prim.Native.Nat.{◌/◌}
use gen_ai_backend.Errors.{
  Raised, timeout, api_error, instructor_retry, circuit_open, rate_limited, index_error,
  value_error, integrity_error, other, Attempt, returned, raised,
}
use gen_ai_backend.ChatSessions.{
  ChatSession, ChatTurn, user, NewTurn, ChatTables, create_chat_session, get_chat_session_owned_by,
  append_chat_turn, list_chat_turns, delete_chat_session,
}
use gen_ai_backend.Chat.{Provider}
use gen_ai_backend.ChatService.{ChatReply, Sources, World, answer_message}

-- A reply, or the status of an HTTPException with its Retry-After in seconds.
pub data Response {ℓ} (A : Type ℓ) : Type ℓ where
  ok : A → Response A
  http : ℕ → Option ℕ → Response A

abbrev pub not_found {ℓ} : {A : Type ℓ} → Response A
not_found = http 404 none

abbrev created : ChatTables → Option ChatTables → String → ChatTables × Response String
created t none session_id = (t, http 500 none)
created t (some t') session_id = (t', ok session_id)

-- `session_id` is the new UUID; of the answer its `session_id` is kept.
chat_create_session : ℕ → ℕ → String → String → ChatTables → ChatTables × Response String
chat_create_session created_at active_at session_id key_hash t =
    created t (create_chat_session created_at active_at session_id key_hash t) session_id

-- The handlers of `chat_send_message`, in their order; the ticks of the breaker's clock are
-- milliseconds.
pub error_response : Raised → Response ChatReply
error_response e = elim e.kind [
  | circuit_open ms ↦ http 503 (some (ms / 1000 + 1))
  | instructor_retry ↦ http 503 none
  | timeout ↦ http 504 none
  | api_error c ↦ http 503 none
  | rate_limited ms ↦ http 500 none
  | index_error ↦ http 500 none
  | value_error ↦ http 500 none
  | integrity_error ↦ http 500 none
  | other ↦ http 500 none
]

abbrev pub user_turn : Text → NewTurn
user_turn message = record {
  role = user;
  content = message;
  retrieved_enrichment_ids = none;
  retrieved_policy_chunk_ids = none;
}

abbrev pub respond : World × Attempt ChatReply → World × Response ChatReply
respond (w, returned reply) = (w, ok reply)
respond (w, raised e) = (w, error_response e)

module _ {V S : Type 0} (sources : Sources V S) (p : Provider) where
  -- After the user's turn; `none` is the exception of a session that is not there.
  abbrev pub answer_turn :
      ℕ × ℕ → String → Text → World → Option ChatTables → World × Response ChatReply
  answer_turn clock session_id message w none = (w, http 500 none)
  answer_turn clock session_id message w (some tables) =
      respond (answer_message sources p clock session_id message (record w { tables = tables }))

  abbrev pub message_in :
      ℕ × ℕ → ℕ × ℕ → String → Text → World → Option ChatSession → World × Response ChatReply
  message_in asked answered session_id message w none = (w, not_found)
  message_in asked answered session_id message w (some session) =
      answer_turn answered session_id message w
        (append_chat_turn asked.0 asked.1 session_id (user_turn message) w.tables)

  -- `asked` and `answered` are the readings of the clock in the commits of the two turns.
  unfoldable pub chat_send_message :
      ℕ × ℕ → ℕ × ℕ → String → String → Text → World → World × Response ChatReply
  chat_send_message asked answered session_id key_hash message w =
      message_in asked answered session_id (strip message) w
        (get_chat_session_owned_by session_id key_hash w.tables)

pub record ChatSessionHistory : Type 0 where
  pub session_id : String
  pub created_at : ℕ
  pub last_active_at : ℕ
  pub turns : List ChatTurn

abbrev history_in : List ChatTurn → Option ChatSession → Response ChatSessionHistory
history_in turns none = not_found
history_in turns (some session) = ok (record {
  session_id = session.id;
  created_at = session.created_at;
  last_active_at = session.last_active_at;
  turns = turns;
})

pub chat_get_history : String → String → ChatTables → Response ChatSessionHistory
chat_get_history session_id key_hash t =
    history_in (list_chat_turns session_id t) (get_chat_session_owned_by session_id key_hash t)

-- The status is 204 in every case.
pub chat_delete_session : Bool → String → String → ChatTables → ChatTables × ℕ
chat_delete_session foreign_keys session_id key_hash t =
    ((delete_chat_session foreign_keys session_id key_hash t).0, 204)
