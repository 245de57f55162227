-- ===== src/ChatSessions/Deletion.antt =====
-- Deleting a session: who may, and what is left of it.
use gen_ai_backend.Prelude.{
  String, str_eq, eq_iff, ◌≡◌, refl, Bool, true, false, ◌&&◌, inl, inr, Option, none, some, List,
  [], ◌∷◌, arith, if◌then◌else◌, Option-cases,
}
use gen_ai_backend.Prelude.Sort.{sort_by}
use gen_ai_backend.ChatSessions.{
  ChatSession, ChatTurn, ChatTables, find_owned, turns_of, by_id, without_session, without_turns,
  get_chat_session_owned_by, list_chat_turns, delete_chat_session,
}

find_owned-without_session :
    (id j key : String) (ss : List ChatSession)
    → find_owned j key (without_session id ss) ≡ (if str_eq id j then none else find_owned j key ss)
find_owned-without_session id j key [] = ground arith
find_owned-without_session id j key (s ∷ ss) =
    ground
      (arith, find_owned-without_session id j key ss, eq_iff s.id id, eq_iff s.id j, eq_iff id j)

turns_of-without_turns :
    (id j : String) (cs : List ChatTurn)
    → turns_of j (without_turns id cs) ≡ (if str_eq id j then [] else turns_of j cs)
turns_of-without_turns id j [] = ground arith
turns_of-without_turns id j (c ∷ cs) = ground (
  arith,
  turns_of-without_turns id j cs,
  eq_iff c.session_id id,
  eq_iff c.session_id j,
  eq_iff id j,
)

abbrev pub is_some {ℓ} : {A : Type ℓ} → Option A → Bool
is_some none = false
is_some (some a) = true

turns_left :
    (foreign_keys : Bool) (id j : String) (cs : List ChatTurn)
    → sort_by by_id (turns_of j (if foreign_keys then without_turns id cs else cs))
      ≡ (if foreign_keys && str_eq id j then [] else sort_by by_id (turns_of j cs))
unfolding sort_by
turns_left true id j cs = rw (turns_of-without_turns id j cs) (ground arith)
turns_left false id j cs = refl

-- Deleting answers true exactly if the caller owns the session. Then no key reaches the session any
-- more, every other session is reached as before, and its turns are gone exactly if the database
-- enforces foreign keys; else nothing changes for any reader.
pub delete_exact :
    (foreign_keys : Bool) (id key j other : String) (t : ChatTables)
    → let r = delete_chat_session foreign_keys id key t in
      (r.1 ≡ is_some (get_chat_session_owned_by id key t))
      × (get_chat_session_owned_by j other r.0
          ≡ (if r.1 && str_eq id j then none else get_chat_session_owned_by j other t))
      × (list_chat_turns j r.0
          ≡ (if r.1 && (foreign_keys && str_eq id j) then [] else list_chat_turns j t))
unfolding delete_chat_session list_chat_turns
delete_exact foreign_keys id key j other t =
    elim (Option-cases (get_chat_session_owned_by id key t)) [
      | inl e ↦ rw e (refl, refl, refl)
      | inr (s, e) ↦ rw e (
        refl,
        unfold get_chat_session_owned_by in find_owned-without_session id j other t.sessions,
        turns_left foreign_keys id j t.turns,
      )
    ]
