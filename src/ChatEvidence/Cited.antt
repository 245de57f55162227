-- ===== src/ChatEvidence/Cited.antt =====
-- narration-enrichment/src/narration_enrichment/chat_service.py: what the citations of a reply are.
use gen_ai_backend.Prelude.{ℕ, String, ◌≡◌, refl, ap, Option, none, some, List, [], ◌∷◌}
use gen_ai_backend.Prelude.Text.{Text}
use gen_ai_backend.Errors.{Attempt, returned, raised}
use gen_ai_backend.Floats.{Floats, ratio}
use gen_ai_backend.Enrichments.{EnrichmentRecord}
use gen_ai_backend.PolicyStore.{PolicyChunk, list_policy_chunks_with_embeddings}
use gen_ai_backend.Rag.{keys, record_row, chunk_row}
use gen_ai_backend.Rag.Sound.{IsSound, found_ids}
use gen_ai_backend.Rag.Retrieval.{examples_are_sound, policies_are_sound}
use gen_ai_backend.ChatSessions.{ChatTables, append_chat_turn, list_chat_turns}
use gen_ai_backend.Chat.{Provider, Run, tool_loop, tool_max_iterations}
use gen_ai_backend.ChatService.{
  World, ChatReply, record_ids, chunk_ids, evidence_for, policy_for, parts_for, earned_reply,
  assistant_turn, embedded, first_run, persisted, conclude, answer_message,
}
use gen_ai_backend.ChatEvidence.{chat_sources, chat_top_k}

module _ (fl : Floats) where
  open fl use {F}

  record_ids-keys :
      (found : List (F × EnrichmentRecord (List F)))
      → record_ids (keys found) ≡ found_ids fl record_row found
  record_ids-keys [] = refl
  record_ids-keys (e ∷ es) = ap (λ rest. e.1.id ∷ rest) (record_ids-keys es)

  chunk_ids-found :
      (found : List (F × PolicyChunk (List F))) → chunk_ids found ≡ found_ids fl chunk_row found
  chunk_ids-found [] = refl
  chunk_ids-found (e ∷ es) = ap (λ rest. e.1.id ∷ rest) (chunk_ids-found es)

  -- The ids are those of a sound retrieval over each table.
  pub record IsCited (records : List (EnrichmentRecord (List F)))
      (chunks : List (PolicyChunk (List F))) (reply : ChatReply) : Type 0 where
    pub examples : List (F × EnrichmentRecord (List F))
    pub examples_sound : IsSound fl record_row chat_top_k records examples
    pub example_ids : reply.cited_enrichment_ids ≡ found_ids fl record_row examples
    pub policies : List (F × PolicyChunk (List F))
    pub policies_sound :
        IsSound fl chunk_row chat_top_k (list_policy_chunks_with_embeddings chunks) policies
    pub policy_ids : reply.cited_policy_chunk_ids ≡ found_ids fl chunk_row policies

  abbrev pub CitesRows :
      List (EnrichmentRecord (List F))
      → List (PolicyChunk (List F))
      → World × Attempt ChatReply
      → Type 0
  CitesRows records chunks (w, raised e) = Unit
  CitesRows records chunks (w, returned reply) = IsCited records chunks reply

  module _ (lower : Text → Text) (raw_client : Option (Text → Attempt (List F)))
      (records : List (EnrichmentRecord (List F))) (chunks : List (PolicyChunk (List F))) where
    earned_reply-IsCited :
        (message answer : Text) (r : Run)
        → IsCited records chunks
            (earned_reply (chat_sources fl lower raw_client records chunks) message answer r)
    unfolding earned_reply evidence_for policy_for
    earned_reply-IsCited message answer r =
        let query = embedded raw_client message in
        let (examples, found, examples_sound) =
          examples_are_sound fl lower message query chat_top_k (ratio fl 13 20) records in
        let (policies, retrieved, policies_sound) =
          policies_are_sound fl lower message query chat_top_k (ratio fl 3 5) chunks in
        record {
          examples = examples;
          examples_sound = examples_sound;
          example_ids = rw found (record_ids-keys examples);
          policies = policies;
          policies_sound = policies_sound;
          policy_ids = rw retrieved (chunk_ids-found policies);
        }

    persisted-CitesRows :
        (reply : ChatReply) (tables : ChatTables) (r : Run) (written : Option ChatTables)
        → IsCited records chunks reply
        → CitesRows records chunks (persisted reply tables r written)
    persisted-CitesRows reply tables r none h = tt
    persisted-CitesRows reply tables r (some tables') h = h

    conclude-CitesRows :
        (clock : ℕ × ℕ) (session_id : String) (message : Text) (tables : ChatTables)
        (run : Run × Attempt Text)
        → CitesRows records chunks (
            conclude
              (chat_sources fl lower raw_client records chunks)
              clock
              session_id
              message
              tables
              run)
    conclude-CitesRows clock session_id message tables (r, raised e) = tt
    conclude-CitesRows clock session_id message tables (r, returned answer) =
        let reply =
          earned_reply (chat_sources fl lower raw_client records chunks) message answer r in
        persisted-CitesRows reply tables r
          (append_chat_turn clock.0 clock.1 session_id (assistant_turn reply) tables)
          (earned_reply-IsCited message answer r)

    -- Whatever the model, the tools, the embedding and the floats do: if a chat message is answered,
    -- then the enrichments that the reply cites are at most three records of the table, none twice,
    -- and the policy chunks are at most three chunks with an embedding, none twice.
    pub citations_are_rows :
        (p : Provider) (clock : ℕ × ℕ) (session_id : String) (message : Text) (w : World)
        → CitesRows records chunks (
            answer_message
              (chat_sources fl lower raw_client records chunks)
              p
              clock
              session_id
              message
              w)
    unfolding answer_message
    citations_are_rows p clock session_id message w =
        let sources = chat_sources fl lower raw_client records chunks in
        conclude-CitesRows clock session_id message w.tables (
          tool_loop p session_id (parts_for sources message (list_chat_turns session_id w.tables))
            tool_max_iterations (first_run w))
