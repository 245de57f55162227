-- ===== src/ChatEvidence/Examples.antt =====
-- A message that is answered at once from a table of one record, with whole numbers for floats.
use gen_ai_backend.Prelude.{ℕ, ◌+◌, ◌-◌, ◌*◌, ltb, leb, none, some, List, [], ◌∷◌}
use gen_ai_backend.Prelude.Text.{Text, codes}
use gen_ai_backend.Errors.{returned}
use gen_ai_backend.Floats.{Floats}
use gen_ai_backend.CircuitBreaker.{new}
use gen_ai_backend.Enrichments.{EnrichmentRecord}
use gen_ai_backend.ChatSessions.{ChatSession}
use gen_ai_backend.Chat.{final_answer, Provider}
use gen_ai_backend.ChatService.{World, answer_message}
use gen_ai_backend.ChatEvidence.{chat_sources}
use gen_ai_backend.ChatEvidence.Cited.{CitesRows, citations_are_rows}

abbrev whole : Floats
whole = record {
  F = ℕ;
  of_nat = λ n. n;
  add = λ a b. a + b;
  sub = λ a b. a - b;
  mul = λ a b. a * b;
  div = λ a b. a;
  log = λ a. a;
  sqrt = λ a. a;
  lt = ltb;
  le = leb;
}

abbrev lower : Text → Text
lower text = text

abbrev records : List (EnrichmentRecord (List ℕ))
records =
    record {
      id = 4;
      narration = codes "upi swiggy order";
      merchant = codes "Swiggy";
      category = codes "food";
      transaction_type = codes "upi";
      created_at = 1;
      embedding = some (1 ∷ []);
    }
    ∷ []

abbrev session : ChatSession
session = record { id = "s"; api_key_hash = "k"; created_at = 1; last_active_at = 1 }

abbrev world : World
world = record {
  tables = record { sessions = session ∷ []; turns = []; next_id = 1 };
  invocations = [];
  breaker = new 5 30_000;
  sent = [];
}

abbrev provider : Provider
provider = record {
  registry = λ name. none;
  dumps = λ result. [];
  catalog_block = codes "menu";
  routed_model = "m";
  create = λ model content. returned (record {
    action = final_answer;
    tool_name = none;
    arguments = none;
    answer = codes "one";
    cited_enrichment_ids = 99 ∷ [];
    cited_policy_chunk_ids = [];
  });
  clock = λ n. record { gate = (1, 2); failure = (3, 4) };
}

citations_are_rows_example : CitesRows whole records [] (
    answer_message
      (chat_sources whole lower (some (λ text. returned (1 ∷ []))) records [])
      provider
      (5, 5)
      "s"
      (codes "swiggy")
      world)
citations_are_rows_example =
    citations_are_rows whole lower (some (λ text. returned (1 ∷ []))) records [] provider (5, 5) "s"
      (codes "swiggy") world
