-- ===== src/Memory.antt =====
-- The session part of the memory service: app/services/memory_service.py over
-- app/repositories/memory_repository.py. The table of messages is the list of its rows in the order
-- of insertion. The database's clock and its order of texts are arguments. What recalls and extracts durable memories for a run asks a language model and the
-- memory table: it is an argument, `recall` and `extract`.
pub mod Durable
use general_agent_framework.Prelude.{
  ℕ, String, Bool, false, ◌&&◌, ◌||◌, Option, List, [], ◌∷◌, ◌++◌, str_eq, length, take, ltb, leb,
  ◌==◌, if◌then◌else◌,
}
use general_agent_framework.Outcome.{Outcome}
use general_agent_framework.Json.{Items, Fields, str, arr, obj, end, field, nil, cons}

pub record SessionMessage : Type 0 where
  pub session_id : String
  pub request_id : String
  pub role : String
  pub content : String
  pub step_index : ℕ
  pub created_at : ℕ

-- what a caller hands to `append_session_messages`
pub record Turn : Type 0 where
  pub role : String
  pub content : String
  pub step_index : ℕ

pub record MemoryService : Type 0 where
  pub session_history_limit : ℕ
  -- `_recall_for`, of the user and the project, as the list of its JSON objects
  pub recall : Option String → String → Items
  -- `extract_and_store_memories`, of both texts of the turn: a number, or an exception
  pub extract : String → String → Outcome ℕ
  -- the time of the insertion of a row, by the number of rows that are there
  pub clock : ℕ → ℕ
  -- whether the database sorts the first text before the second
  pub before : String → String → Bool

-- `has_session_message`
unfoldable pub has_request_turn : String → String → List SessionMessage → Bool
has_request_turn session_id request_id [] = false
has_request_turn session_id request_id (m ∷ ms) =
    str_eq m.session_id session_id && str_eq m.request_id request_id
    || has_request_turn session_id request_id ms

in_session : String → List SessionMessage → List SessionMessage
in_session session_id [] = []
in_session session_id (m ∷ ms) =
    let rest = in_session session_id ms in
    elim (str_eq m.session_id session_id) [ Bool.true ↦ m ∷ rest | Bool.false ↦ rest ]

-- `ORDER BY created_at DESC, request_id DESC, step_index DESC`
is_later : MemoryService → SessionMessage → SessionMessage → Bool
is_later service a b =
    if a.created_at == b.created_at
    then (if str_eq a.request_id b.request_id
        then leb b.step_index a.step_index
        else service.before b.request_id a.request_id)
    else ltb b.created_at a.created_at

placed : MemoryService → SessionMessage → List SessionMessage → List SessionMessage
unfolding is_later
placed service a [] = a ∷ []
placed service a (b ∷ bs) =
    let rest = placed service a bs in if is_later service a b then a ∷ b ∷ bs else b ∷ rest

sorted : MemoryService → List SessionMessage → List SessionMessage
unfolding placed
sorted service [] = []
sorted service (a ∷ ms) = placed service a (sorted service ms)

-- `rows.reverse()`, before the rows `done`
oldest_first : List SessionMessage → List SessionMessage → List SessionMessage
oldest_first [] done = done
oldest_first (a ∷ ms) done = oldest_first ms (a ∷ done)

-- The last `limit` messages of the session, oldest first.
unfoldable pub list_session_messages :
    MemoryService → String → ℕ → List SessionMessage → List SessionMessage
unfolding in_session sorted oldest_first
list_session_messages service session_id limit ms =
    oldest_first (take limit (sorted service (in_session session_id ms))) []

history_json : List SessionMessage → Items
history_json [] = nil
history_json (m ∷ ms) =
    cons (obj (field "role" (str m.role) (field "content" (str m.content) end))) (history_json ms)

unfoldable pub load_session_context :
    MemoryService → List SessionMessage → String → Option String → String → Fields
unfolding list_session_messages history_json
load_session_context service ms session_id user_id project_key =
    field "session_id" (str session_id) (
      field "session_history"
        (arr (
          history_json (list_session_messages service session_id service.session_history_limit ms)))
        (field "recalled_memories" (arr (service.recall user_id project_key)) end))

-- Each row has the time of its own insertion, by the clock.
unfoldable pub append_session_messages :
    (ℕ → ℕ) → String → String → List Turn → List SessionMessage → List SessionMessage
append_session_messages clock session_id request_id [] ms = ms
append_session_messages clock session_id request_id (t ∷ ts) ms =
    append_session_messages clock session_id request_id ts (
      ms
      ++ record {
        session_id = session_id;
        request_id = request_id;
        role = t.role;
        content = t.content;
        step_index = t.step_index;
        created_at = clock (length ms);
      }
        ∷ [])
