-- ===== src/ChatService.antt =====
-- narration-enrichment/src/narration_enrichment/chat_service.py: `answer_message` round its tool loop:
-- retrieval that degrades, the memory, the earned citations and the assistant's turn. The two
-- retrievals and the embedding are arguments, each of which may raise.
pub mod Memory
use gen_ai_backend.Prelude.{ℕ, ◌-◌, String, Option, none, some, List, [], ◌∷◌, ◌++◌, drop, length}
use gen_ai_backend.Prelude.Text.{Text}
use gen_ai_backend.Errors.{Raised, plain, other, Attempt, returned, raised}
use gen_ai_backend.CircuitBreaker.{CircuitBreaker}
use gen_ai_backend.Tools.{ToolOutcome}
use gen_ai_backend.Enrichments.{EnrichmentRecord}
use gen_ai_backend.PolicyStore.{PolicyChunk}
use gen_ai_backend.ChatSessions.{
  user, assistant, ChatTurn, ChatTables, NewTurn, append_chat_turn, list_chat_turns,
}
use gen_ai_backend.ChatPrompt.{memory_block, evidence_block, policy_block}
use gen_ai_backend.Chat.{
  ToolInvocation, Provider, PromptParts, Run, tool_loop, tool_max_iterations, tool_names,
}

pub record ChatReply : Type 0 where
  pub answer : Text
  pub cited_enrichment_ids : List ℕ
  pub cited_policy_chunk_ids : List ℕ
  pub tools_used : List String

-- `raw_client` is `none` if it cannot be built, and else its embedding of a text.
pub record Sources (V : Type 0) (S : Type 0) : Type 0 where
  pub raw_client : Option (Text → Attempt V)
  pub find_examples : Text → Option V → Attempt (List (EnrichmentRecord V))
  pub find_chunks : Text → Option V → Attempt (List (S × PolicyChunk V))

-- What the messages of all sessions share: two tables, the breaker and what was sent.
pub record World : Type 0 where
  pub tables : ChatTables
  pub invocations : List ToolInvocation
  pub breaker : CircuitBreaker
  pub sent : List Text

-- `CHAT_MEMORY_MAX_TURNS`
abbrev pub chat_memory_max_turns : ℕ
chat_memory_max_turns = 6

-- The turns less the last one, if that is the user's.
unfoldable pub prior_turns : List ChatTurn → List ChatTurn
prior_turns [] = []
prior_turns (t ∷ []) = elim t.role [ user ↦ [] | assistant ↦ t ∷ [] ]
prior_turns (t ∷ u ∷ us) = t ∷ prior_turns (u ∷ us)

-- `prior_turns[-CHAT_MEMORY_MAX_TURNS:]`
unfoldable pub memory_turns : List ChatTurn → List ChatTurn
unfolding prior_turns
memory_turns all_turns =
    let prior = prior_turns all_turns in drop (length prior - chat_memory_max_turns) prior

-- A retrieval that raises leaves its channel empty.
abbrev pub or_nothing {ℓ} : {A : Type ℓ} → Attempt (List A) → List A
or_nothing (returned found) = found
or_nothing (raised e) = []

abbrev kept {ℓ} : {A : Type ℓ} → Attempt A → Option A
kept (returned v) = some v
kept (raised e) = none

abbrev pub embedded : {V : Type 0} → Option (Text → Attempt V) → Text → Option V
embedded none text = none
embedded (some embed) text = kept (embed text)

abbrev pub assistant_turn : ChatReply → NewTurn
assistant_turn reply = record {
  role = assistant;
  content = reply.answer;
  retrieved_enrichment_ids = some reply.cited_enrichment_ids;
  retrieved_policy_chunk_ids = some reply.cited_policy_chunk_ids;
}

abbrev world_of : ChatTables → Run → World
world_of tables r = record {
  tables = tables;
  invocations = r.invocations;
  breaker = r.breaker;
  sent = r.sent;
}

abbrev pub persisted : ChatReply → ChatTables → Run → Option ChatTables → World × Attempt ChatReply
persisted reply tables r none = (world_of tables r, raised (plain other))
persisted reply tables r (some tables') = (world_of tables' r, returned reply)

abbrev pub first_run : World → Run
first_run w = record {
  breaker = w.breaker;
  sent = w.sent;
  invocations = w.invocations;
  observations = [];
  executed_ok = [];
}

module _ {V : Type 0} where
  abbrev pub record_ids : List (EnrichmentRecord V) → List ℕ
  record_ids [] = []
  record_ids (r ∷ rs) = r.id ∷ record_ids rs

module _ {V S : Type 0} where
  abbrev pub chunk_ids : List (S × PolicyChunk V) → List ℕ
  chunk_ids [] = []
  chunk_ids ((score, c) ∷ cs) = c.id ∷ chunk_ids cs

  abbrev pub chunks : List (S × PolicyChunk V) → List (PolicyChunk V)
  chunks [] = []
  chunks ((score, c) ∷ cs) = c ∷ chunks cs

  module _ (sources : Sources V S) where
    unfoldable pub evidence_for : Text → List (EnrichmentRecord V)
    evidence_for message =
        or_nothing (sources.find_examples message (embedded sources.raw_client message))

    unfoldable pub policy_for : Text → List (S × PolicyChunk V)
    policy_for message =
        or_nothing (sources.find_chunks message (embedded sources.raw_client message))

    unfoldable pub parts_for : Text → List ChatTurn → PromptParts
    unfolding memory_turns
    parts_for message all_turns = record {
      user_message = message;
      memory = memory_block (memory_turns all_turns);
      evidence = evidence_block (evidence_for message);
      policy = policy_block (chunks (policy_for message));
    }

    -- The reply's fields are the retrievals' and the executor's, whatever the model wrote.
    unfoldable pub earned_reply : Text → Text → Run → ChatReply
    earned_reply message answer r = record {
      answer = answer;
      cited_enrichment_ids = record_ids (evidence_for message);
      cited_policy_chunk_ids = chunk_ids (policy_for message);
      tools_used = tool_names r.executed_ok;
    }

    abbrev pub conclude :
        ℕ × ℕ → String → Text → ChatTables → Run × Attempt Text → World × Attempt ChatReply
    conclude clock session_id message tables (r, raised e) = (world_of tables r, raised e)
    conclude clock session_id message tables (r, returned answer) =
        let reply = earned_reply message answer r in
        persisted reply tables r
          (append_chat_turn clock.0 clock.1 session_id (assistant_turn reply) tables)

    -- `clock` is read by the commit of the assistant's turn.
    unfoldable pub answer_message :
        Provider → ℕ × ℕ → String → Text → World → World × Attempt ChatReply
    answer_message p clock session_id message w =
        let parts = parts_for message (list_chat_turns session_id w.tables) in
        conclude clock session_id message w.tables
          (tool_loop p session_id parts tool_max_iterations (first_run w))
