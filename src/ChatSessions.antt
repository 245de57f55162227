-- ===== src/ChatSessions.antt =====
-- narration-enrichment/src/narration_enrichment/db.py: the tables `chat_sessions` and `chat_turns`, rows in
-- the order of insertion. A text is its code points; the JSON texts of the citations are kept as
-- the lists that they encode. Of a commit the readings of the clock are arguments. `foreign_keys`
-- says whether the database enforces ON DELETE CASCADE.
pub mod Turns
pub mod Deletion
use gen_ai_backend.Prelude.{
  ℕ, suc, ◌+◌, String, str_eq, Bool, true, false, ◌&&◌, leb, Option, none, some, List, [], ◌∷◌,
  ◌++◌, if◌then◌else◌,
}
use gen_ai_backend.Prelude.Text.{Text}
use gen_ai_backend.Prelude.Sort.{sort_by}

pub record ChatSession : Type 0 where
  pub id : String
  pub api_key_hash : String
  pub created_at : ℕ
  pub last_active_at : ℕ

pub data Role : Type 0 where
  user assistant : Role

pub record ChatTurn : Type 0 where
  pub id : ℕ
  pub session_id : String
  pub role : Role
  pub content : Text
  pub created_at : ℕ
  pub retrieved_enrichment_ids : Option (List ℕ)
  pub retrieved_policy_chunk_ids : Option (List ℕ)

pub record ChatTables : Type 0 where
  pub sessions : List ChatSession
  pub turns : List ChatTurn
  pub next_id : ℕ

abbrev pub find_session : String → List ChatSession → Option ChatSession
find_session session_id [] = none
find_session session_id (s ∷ ss) =
    if str_eq s.id session_id then some s else find_session session_id ss

abbrev create_in : ChatSession → ChatTables → Option ChatSession → Option ChatTables
create_in row t (some taken) = none
create_in row t none = some (record t { sessions = t.sessions ++ row ∷ [] })

-- `none`: the id is taken, and the commit raises IntegrityError.
pub create_chat_session : ℕ → ℕ → String → String → ChatTables → Option ChatTables
create_chat_session created_at active_at session_id api_key_hash t =
    create_in
      (record {
        id = session_id;
        api_key_hash = api_key_hash;
        created_at = created_at;
        last_active_at = active_at;
      })
      t (find_session session_id t.sessions)

-- Both filters of the query.
abbrev pub find_owned : String → String → List ChatSession → Option ChatSession
find_owned session_id key_hash [] = none
find_owned session_id key_hash (s ∷ ss) =
    if str_eq s.id session_id && str_eq s.api_key_hash key_hash
    then some s
    else find_owned session_id key_hash ss

unfoldable pub get_chat_session_owned_by : String → String → ChatTables → Option ChatSession
get_chat_session_owned_by session_id key_hash t = find_owned session_id key_hash t.sessions

-- `session.last_active_at = …`
abbrev pub touch : ℕ → String → List ChatSession → List ChatSession
touch now session_id [] = []
touch now session_id (s ∷ ss) =
    (if str_eq s.id session_id then record s { last_active_at = now } else s)
    ∷ touch now session_id ss

-- What a turn is made of, but for its id, its session and its time.
pub record NewTurn : Type 0 where
  pub role : Role
  pub content : Text
  pub retrieved_enrichment_ids : Option (List ℕ)
  pub retrieved_policy_chunk_ids : Option (List ℕ)

abbrev pub turn_row : ℕ → ℕ → String → NewTurn → ChatTurn
turn_row id now session_id new = record {
  id = id;
  session_id = session_id;
  role = new.role;
  content = new.content;
  created_at = now;
  retrieved_enrichment_ids = new.retrieved_enrichment_ids;
  retrieved_policy_chunk_ids = new.retrieved_policy_chunk_ids;
}

abbrev append_in : ℕ → ℕ → String → NewTurn → ChatTables → Option ChatSession → Option ChatTables
append_in active_at created_at session_id new t none = none
append_in active_at created_at session_id new t (some session) = some (record {
  sessions = touch active_at session_id t.sessions;
  turns = t.turns ++ turn_row t.next_id created_at session_id new ∷ [];
  next_id = suc t.next_id;
})

-- `none`: there is no such session, `.one()` raises and nothing is committed.
unfoldable pub append_chat_turn : ℕ → ℕ → String → NewTurn → ChatTables → Option ChatTables
append_chat_turn active_at created_at session_id new t =
    append_in active_at created_at session_id new t (find_session session_id t.sessions)

abbrev pub turns_of : String → List ChatTurn → List ChatTurn
turns_of session_id [] = []
turns_of session_id (c ∷ cs) =
    let rest = turns_of session_id cs in if str_eq c.session_id session_id then c ∷ rest else rest

abbrev pub by_id : ChatTurn → ChatTurn → Bool
by_id a b = leb a.id b.id

unfoldable pub list_chat_turns : String → ChatTables → List ChatTurn
list_chat_turns session_id t = sort_by by_id (turns_of session_id t.turns)

abbrev pub without_session : String → List ChatSession → List ChatSession
without_session session_id [] = []
without_session session_id (s ∷ ss) =
    let rest = without_session session_id ss in if str_eq s.id session_id then rest else s ∷ rest

abbrev pub without_turns : String → List ChatTurn → List ChatTurn
without_turns session_id [] = []
without_turns session_id (c ∷ cs) =
    let rest = without_turns session_id cs in
    if str_eq c.session_id session_id then rest else c ∷ rest

abbrev delete_in : Bool → String → ChatTables → Option ChatSession → ChatTables × Bool
delete_in foreign_keys session_id t none = (t, false)
delete_in foreign_keys session_id t (some s) = (
  record t {
    sessions = without_session session_id t.sessions;
    turns = if foreign_keys then without_turns session_id t.turns else t.turns;
  },
  true,
)

unfoldable pub delete_chat_session : Bool → String → String → ChatTables → ChatTables × Bool
delete_chat_session foreign_keys session_id key_hash t =
    delete_in foreign_keys session_id t (get_chat_session_owned_by session_id key_hash t)
