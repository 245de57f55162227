-- ===== src/ChatRoutes/Message.antt =====
-- One message of a session: what its readers see afterwards, and what the reply says.
use gen_ai_backend.Prelude.{
  ℕ, suc, ◌+◌, ◌≤◌, String, str_eq, ◌≡◌, refl, sym, inl, inr, false, Bool-cases, Option, none, some,
  List, [], ◌∷◌, ◌++◌, length, All, arith,
}
use gen_ai_backend.Prelude.Text.{Text, is_empty, strip}
use Prim.Native.Nat.{◌/◌}
use gen_ai_backend.Errors.{
  Raised, timeout, api_error, instructor_retry, circuit_open, rate_limited, index_error,
  value_error, integrity_error, other, Attempt, returned, raised,
}
use gen_ai_backend.ChatSessions.{
  ChatSession, NewTurn, ChatTables, find_session, find_owned, touch, turn_row, append_chat_turn,
  get_chat_session_owned_by, list_chat_turns,
}
use gen_ai_backend.ChatSessions.Turns.{IsFresh, IsAppended, append_chat_turn-IsAppended}
use gen_ai_backend.Chat.{ToolInvocation, Provider, Run, tool_loop, tool_max_iterations}
use gen_ai_backend.Chat.Trail.{IsGenuine, ok_names, rows_due}
use gen_ai_backend.Chat.Calls.{Cause, Origin}
use gen_ai_backend.Chat.Loop.{Owes, tool_loop-Lands}
use gen_ai_backend.ChatService.{
  ChatReply, Sources, World, record_ids, chunk_ids, evidence_for, policy_for, parts_for,
  earned_reply, assistant_turn, first_run, conclude, answer_message,
}
use gen_ai_backend.ChatRoutes.{
  Response, ok, http, error_response, user_turn, respond, chat_send_message,
}

-- A session that an owner finds is found by its id.
owned_is_found :
    (id key : String) (s : ChatSession) (ss : List ChatSession)
    → find_owned id key ss ≡ some s
    → (u : ChatSession) × (find_session id ss ≡ some u)
owned_is_found id key s [] h = absurd (let wrong : none ≡ some s = h in cc)
owned_is_found id key s (x ∷ xs) h = elim (Bool-cases (str_eq x.id id)) [
  | inl y ↦ rw y (x, refl)
  | inr n ↦ rw n (owned_is_found id key s xs (rw n at h))
]

touched_is_found :
    (now : ℕ) (id : String) (u : ChatSession) (ss : List ChatSession)
    → find_session id ss ≡ some u
    → (v : ChatSession) × (find_session id (touch now id ss) ≡ some v)
touched_is_found now id u [] h = absurd (let wrong : none ≡ some u = h in cc)
touched_is_found now id u (x ∷ xs) h = elim (Bool-cases (str_eq x.id id)) [
  | inl y ↦ (record x { last_active_at = now }, ground arith)
  | inr n ↦ let (v, found) = touched_is_found now id u xs (rw n at h) in (v, ground arith)
]

-- An append to a session that is there is made, and the session stays.
appends :
    (a c : ℕ) (id : String) (new : NewTurn) (t : ChatTables) (u : ChatSession)
    → find_session id t.sessions ≡ some u
    → (t' : ChatTables) × (append_chat_turn a c id new t ≡ some t')
      × (v : ChatSession) × (find_session id t'.sessions ≡ some v)
unfolding append_chat_turn
appends a c id new t u h =
    let (v, found) = touched_is_found a id u t.sessions h in
    (
      record {
        sessions = touch a id t.sessions;
        turns = t.turns ++ turn_row t.next_id c id new ∷ [];
        next_id = suc t.next_id;
      },
      rw h refl,
      v,
      found,
    )

refused_with : (e : Raised) → (n : ℕ) × (h : Option ℕ) × (error_response e ≡ http n h)
unfolding error_response
refused_with e =
    elim (e.kind)
      as (λ k. (n : ℕ) × (h : Option ℕ) × (error_response (record e { kind = k }) ≡ http n h)) [
        | circuit_open ms ↦ (503, some (ms / 1000 + 1), refl)
        | instructor_retry ↦ (503, none, refl)
        | timeout ↦ (504, none, refl)
        | api_error c ↦ (503, none, refl)
        | rate_limited ms ↦ (500, none, refl)
        | index_error ↦ (500, none, refl)
        | value_error ↦ (500, none, refl)
        | integrity_error ↦ (500, none, refl)
        | other ↦ (500, none, refl)
      ]

module _ {V S : Type 0} (sources : Sources V S) (p : Provider) (asked answered : ℕ × ℕ)
    (session_id : String) (message : Text) where
  -- The reader of the session sees the question and then the answer, with what the reply cites; the
  -- reply cites what retrieval found and names the tools that ran.
  pub record IsAnswered (prompts : List Text) (rows : List ToolInvocation) (reply : ChatReply)
      (w w' : World) : Type 0 where
    pub between : ChatTables
    pub question :
        IsAppended session_id
          (turn_row w.tables.next_id asked.1 session_id (user_turn message))
          w.tables
          between
    pub answer :
        IsAppended session_id
          (turn_row between.next_id answered.1 session_id (assistant_turn reply))
          between
          w'.tables
    pub said : is_empty reply.answer ≡ false
    pub origin : Origin p prompts reply.answer
    pub examples : reply.cited_enrichment_ids ≡ record_ids (evidence_for sources message)
    pub policies : reply.cited_policy_chunk_ids ≡ chunk_ids (policy_for sources message)
    pub tools : reply.tools_used ≡ ok_names rows

  -- The question is kept, and the response is the one for what the breaker or the model raised.
  pub record IsRefused (response : Response ChatReply) (w w' : World) : Type 0 where
    pub question :
        IsAppended session_id
          (turn_row w.tables.next_id asked.1 session_id (user_turn message))
          w.tables
          w'.tables
    pub error : Raised
    pub cause : Cause p w'.breaker error
    pub status : response ≡ error_response error

  abbrev pub Ending : List Text → List ToolInvocation → World → World × Response ChatReply → Type 0
  Ending prompts rows w (w', ok reply) = IsAnswered prompts rows reply w w'
  Ending prompts rows w (w', http status retry_after) = IsRefused (http status retry_after) w w'

  pub record IsSettled (w : World) (out : World × Response ChatReply) : Type 0 where
    pub prompts : List Text
    pub sent : out.0.sent ≡ w.sent ++ prompts
    pub bounded : length prompts ≤ 4
    pub rows : List ToolInvocation
    pub audited : out.0.invocations ≡ w.invocations ++ rows
    pub due : rows ≡ rows_due p session_id tool_max_iterations prompts
    pub genuine : All (IsGenuine p.registry session_id) rows
    pub slot_free : w.breaker.probe_in_flight ≡ false → out.0.breaker.probe_in_flight ≡ false
    pub ending : Ending prompts rows w out

  raised_ends :
      (prompts : List Text) (rows : List ToolInvocation) (w w' : World) (e : Raised)
      → IsAppended session_id
          (turn_row w.tables.next_id asked.1 session_id (user_turn message))
          w.tables
          w'.tables
      → Cause p w'.breaker e
      → Ending prompts rows w (respond (w', raised e))
  raised_ends prompts rows w w' e question cause =
      let (n, h, eq) = refused_with e in
      rw eq (record { question = question; error = e; cause = cause; status = sym eq })

  settled :
      (w : World) (t : ChatTables) (v : ChatSession) (out : Run × Attempt Text)
      → IsAppended session_id
          (turn_row w.tables.next_id asked.1 session_id (user_turn message))
          w.tables
          t
      → find_session session_id t.sessions ≡ some v
      → Owes p session_id
          (parts_for sources message (list_chat_turns session_id t))
          tool_max_iterations
          (first_run (record w { tables = t }))
          out
      → IsSettled w (respond (conclude sources answered session_id message t out))
  settled w t v (r, raised e) question found (g, due, cause) = record {
    prompts = g.prompts;
    sent = g.sent;
    bounded = g.bounded;
    rows = g.rows;
    audited = g.audited;
    due = due;
    genuine = g.genuine;
    slot_free = g.slot_free;
    ending = raised_ends g.prompts g.rows w _ e question cause;
  }
  settled w t v (r, returned answer) question found (g, due, said) =
      let reply = earned_reply sources message answer r in
      let (t', app, u, found') =
        appends answered.0 answered.1 session_id (assistant_turn reply) t v found in
      rw app (record {
        prompts = g.prompts;
        sent = g.sent;
        bounded = g.bounded;
        rows = g.rows;
        audited = g.audited;
        due = due;
        genuine = g.genuine;
        slot_free = g.slot_free;
        ending = record {
          between = t;
          question = question;
          answer =
              append_chat_turn-IsAppended answered.0 answered.1 session_id (assistant_turn reply) t
                t' question.fresh app;
          said = unfold earned_reply in said.0;
          origin = unfold earned_reply in said.1;
          examples = unfold earned_reply in refl;
          policies = unfold earned_reply in refl;
          tools = unfold earned_reply in g.earned;
        };
      })

-- A message of the owner, to tables whose ids are all below the next one, is settled whatever the
-- model, the tools, the retrievals and the breaker do: at most four prompts are sent, and a free
-- probe slot of the breaker is free again. The audit rows added are exactly those that the model's
-- replies to the first three prompts call for, in order: one for each request of a tool, whether
-- the tool succeeds, fails, refuses its arguments or is unknown, with what the executor came to.
-- Either the session has the question and then a reply that is not empty, comes from what the model
-- said to the last prompt or, where that is blank, is the fallback text, cites what retrieval found
-- and names the tools that ran, or it has the question alone and the status is that of what was
-- raised, by the model or by a breaker that is not closed. No other session's turns change.
pub message_settles :
    {V S : Type 0} (sources : Sources V S) (p : Provider) (asked answered : ℕ × ℕ)
    (session_id key_hash : String) (message : Text) (w : World) (s : ChatSession)
    → get_chat_session_owned_by session_id key_hash w.tables ≡ some s
    → IsFresh w.tables.next_id w.tables.turns
    → IsSettled sources p asked answered session_id
        (strip message)
        w
        (chat_send_message sources p asked answered session_id key_hash message w)
unfolding chat_send_message answer_message
message_settles sources p asked answered session_id key_hash message w s owned fresh =
    let m = strip message in
    let (u, found) =
      owned_is_found session_id key_hash s w.tables.sessions
        (unfold get_chat_session_owned_by in owned) in
    let (t, app, v, found') = appends asked.0 asked.1 session_id (user_turn m) w.tables u found in
    let parts = parts_for sources m (list_chat_turns session_id t) in
    let landing =
      tool_loop-Lands p session_id parts tool_max_iterations
        (first_run (record w { tables = t })) in
    rw (owned, app)
      (settled sources p asked answered session_id m w t v
        (tool_loop p session_id parts tool_max_iterations (first_run (record w { tables = t })))
        (append_chat_turn-IsAppended asked.0 asked.1 session_id (user_turn m) w.tables t fresh app)
        found' landing)
