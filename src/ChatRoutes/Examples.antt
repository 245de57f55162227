-- ===== src/ChatRoutes/Examples.antt =====
-- A message whose model asks for a tool until its budget is spent, one behind an open breaker, and one
-- of a stranger.
use gen_ai_backend.Prelude.{
  ℕ, String, ◌≡◌, refl, false, none, some, List, [], ◌∷◌, length, drop, Bool, str_eq, ◌&&◌,
  if◌then◌else◌, ◌-◌, ◌≤◌,
}
use gen_ai_backend.Prelude.Text.{Text, codes, strip, lstrip, rstrip, is_space}
use gen_ai_backend.Errors.{returned, raised, plain, timeout}
use gen_ai_backend.CircuitBreaker.{new, allow, allow_in, effective_state, record_success}
use gen_ai_backend.Tools.{execute_tool}
use gen_ai_backend.ChatSessions.{
  ChatSession, ChatTurn, ChatTables, turn_row, append_chat_turn, get_chat_session_owned_by,
  list_chat_turns, delete_chat_session,
}
use gen_ai_backend.ChatSessions.Turns.{append_chat_turn-IsAppended}
use gen_ai_backend.ChatSessions.Deletion.{delete_exact, is_some}
use gen_ai_backend.Chat.Loop.{Owes, tool_loop-Lands}
use gen_ai_backend.Chat.{
  PromptParts, Run, tool_call, ChatStep, Provider, tool_loop, call, content_of, run_requested,
}
use gen_ai_backend.ChatService.{
  ChatReply, Sources, World, memory_turns, prior_turns, answer_message, parts_for, earned_reply,
  evidence_for, policy_for,
}
use gen_ai_backend.ChatPrompt.{build_prompt}
use gen_ai_backend.ChatService.Memory.{memory_excludes_question}
use gen_ai_backend.ChatRoutes.{
  Response, http, ok, not_found, user_turn, chat_send_message, chat_get_history,
  chat_delete_session,
}
use gen_ai_backend.ChatRoutes.Message.{IsSettled, message_settles}
use gen_ai_backend.ChatRoutes.Strangers.{strangers_chat_nothing}

abbrev session : ChatSession
session = record { id = "s"; api_key_hash = "k"; created_at = 1; last_active_at = 1 }

abbrev tables : ChatTables
tables = record { sessions = session ∷ []; turns = []; next_id = 1 }

abbrev world : World
world = record { tables = tables; invocations = []; breaker = new 5 30_000; sent = [] }

abbrev step : ChatStep
step = record {
  action = tool_call;
  tool_name = some "count_transactions";
  arguments = none;
  answer = codes "two";
  cited_enrichment_ids = 99 ∷ [];
  cited_policy_chunk_ids = [];
}

abbrev provider : Provider
provider = record {
  registry = λ name. some (record { run = λ arguments. some (returned ([], "2")) });
  dumps = λ answer. codes "2";
  catalog_block = codes "menu";
  routed_model = "m";
  create = λ model content. returned step;
  clock = λ n. record { gate = (1, 2); failure = (3, 4) };
}

abbrev sources : Sources ℕ ℕ
sources = record {
  raw_client = none;
  find_examples = λ text embedding. raised (plain timeout);
  find_chunks = λ text embedding. returned [];
}

abbrev question : Text
question = codes " how many? "

message_settles_example :
    IsSettled sources provider
      (5, 5)
      (6, 6)
      "s"
      (strip question)
      world
      (chat_send_message sources provider (5, 5) (6, 6) "s" "k" question world)
unfolding get_chat_session_owned_by
message_settles_example =
    message_settles sources provider (5, 5) (6, 6) "s" "k" question world session refl tt

strangers_chat_nothing_example :
    (chat_send_message sources provider (5, 5) (6, 6) "s" "other" question world
      ≡ (world, not_found))
    × (chat_get_history "s" "other" tables ≡ not_found)
    × (chat_delete_session false "s" "other" tables ≡ (tables, 204))
strangers_chat_nothing_example =
    strangers_chat_nothing sources provider (5, 5) (6, 6) "s" "other" question false world
      (λ same. refl, tt)

abbrev asked_row : ChatTurn
asked_row = turn_row 1 5 "s" (user_turn question)

abbrev asked_tables : ChatTables
asked_tables = record {
  sessions = record session { last_active_at = 5 } ∷ [];
  turns = asked_row ∷ [];
  next_id = 2;
}

memory_excludes_question_example :
    (memory_turns (list_chat_turns "s" asked_tables)
      ≡ drop (length (list_chat_turns "s" tables) - 6) (list_chat_turns "s" tables))
    × (length (memory_turns (list_chat_turns "s" asked_tables)) ≤ 6)
unfolding append_chat_turn
memory_excludes_question_example =
    memory_excludes_question "s" asked_row tables asked_tables refl
      (append_chat_turn-IsAppended 5 5 "s" (user_turn question) tables asked_tables tt refl)

abbrev deleted : ChatTables × Bool
deleted = delete_chat_session false "s" "k" asked_tables

delete_exact_example :
    (deleted.1 ≡ is_some (get_chat_session_owned_by "s" "k" asked_tables))
    × (get_chat_session_owned_by "s" "k" deleted.0 ≡ (
        if deleted.1 && str_eq "s" "s"
        then none
        else get_chat_session_owned_by "s" "k" asked_tables))
    × (list_chat_turns "s" deleted.0
        ≡ (if deleted.1 && (false && str_eq "s" "s") then [] else list_chat_turns "s" asked_tables))
delete_exact_example = delete_exact false "s" "k" "s" "k" asked_tables

-- Three tool calls, the forced answer, four prompts.
ran : World × Response ChatReply
ran = chat_send_message sources provider (5, 5) (6, 6) "s" "k" question world

reply_of : Response ChatReply → List String
reply_of (ok reply) = reply.tools_used
reply_of (http status retry_after) = []

budget_is_spent :
    (reply_of ran.1 ≡ "count_transactions" ∷ "count_transactions" ∷ "count_transactions" ∷ [])
    × (length ran.0.sent ≡ 4)
    × (length ran.0.tables.turns ≡ 2)
unfolding ran reply_of chat_send_message answer_message get_chat_session_owned_by append_chat_turn
    tool_loop call content_of run_requested parts_for earned_reply evidence_for policy_for
    build_prompt strip lstrip rstrip is_space execute_tool allow allow_in effective_state new
    record_success list_chat_turns memory_turns prior_turns
budget_is_spent = (refl, refl, refl)

abbrev parts : PromptParts
parts = record { user_message = question; memory = []; evidence = []; policy = [] }

abbrev idle : Run
idle = record {
  breaker = new 5 30_000;
  sent = [];
  invocations = [];
  observations = [];
  executed_ok = [];
}

tool_loop-Lands_example : Owes provider "s" parts 3 idle (tool_loop provider "s" parts 3 idle)
tool_loop-Lands_example = tool_loop-Lands provider "s" parts 3 idle
