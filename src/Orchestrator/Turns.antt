-- ===== src/Orchestrator/Turns.antt =====
-- The turns that the end of a run leaves in its session: `_persist_session_context` of
-- app/orchestrator/base.py, over the message table of app/services/memory_service.py.
use general_agent_framework.Prelude.{
  ℕ, suc, ◌+◌, String, ◌≡◌, refl, sym, ◌∙◌, ap, Bool, true, false, ◌&&◌, ◌||◌, some, List, [], ◌∷◌,
  ◌++◌, arith, length, length-append, str_eq, if◌then◌else◌,
}
use mathlib.Core.List.{append-nil, append_assoc}
use text.Mathlib.TextPositions.{eq_refl}
use general_agent_framework.Memory.{
  SessionMessage, Turn, MemoryService, has_request_turn, append_session_messages,
}
use general_agent_framework.Orchestrator.State.{OrchestratorState}
use general_agent_framework.Orchestrator.Base.{Services, World}
use general_agent_framework.Orchestrator.Session.{given, turns_of, persist_session_context}

-- The messages of a request in a session that have the role.
unfoldable pub turns_by : String → String → String → List SessionMessage → ℕ
turns_by role session_id request_id [] = 0
turns_by role session_id request_id (m ∷ ms) =
    let rest = turns_by role session_id request_id ms in
    if str_eq m.session_id session_id && str_eq m.request_id request_id && str_eq m.role role
    then suc rest
    else rest

turns_by-nil : (role k r : String) → turns_by role k r [] ≡ 0
unfolding turns_by
turns_by-nil role k r = refl

turns_by-append :
    (role k r : String) (xs ys : List SessionMessage)
    → turns_by role k r (xs ++ ys) ≡ turns_by role k r xs + turns_by role k r ys
unfolding turns_by
turns_by-append role k r [] ys = omega arith
turns_by-append role k r (x ∷ xs) ys = ground (arith, turns_by-append role k r xs ys)

no_turns :
    (role k r : String) (ms : List SessionMessage)
    → has_request_turn k r ms ≡ false
    → turns_by role k r ms ≡ 0
unfolding turns_by has_request_turn
no_turns role k r [] h = refl
no_turns role k r (m ∷ ms) h = ground (arith, no_turns role k r ms)

has_request_turn-append :
    (k r : String) (xs ys : List SessionMessage)
    → has_request_turn k r (xs ++ ys) ≡ (has_request_turn k r xs || has_request_turn k r ys)
unfolding has_request_turn
has_request_turn-append k r [] ys = refl
has_request_turn-append k r (x ∷ xs) ys = ground (arith, has_request_turn-append k r xs ys)

-- the message of a turn
abbrev message_of : ℕ → String → String → Turn → SessionMessage
message_of now session_id request_id t = record {
  session_id = session_id;
  request_id = request_id;
  role = t.role;
  content = t.content;
  step_index = t.step_index;
  created_at = now;
}

-- What the call leaves of a request: one user turn of the request, unless turns of it were
-- there before, which keep their number; one more assistant turn; and the messages of before.
abbrev pub Persists : String → String → List SessionMessage → List SessionMessage → Type 0
Persists k r before after =
    (turns_by "user" k r after
      ≡ (if has_request_turn k r before then turns_by "user" k r before else 1))
    × (turns_by "assistant" k r after ≡ turns_by "assistant" k r before + 1)
    × (has_request_turn k r after ≡ true)
    × ((new : List SessionMessage) × (after ≡ before ++ new))

-- the rows of the turns, from the `n`-th of the table on
abbrev rows_of : (ℕ → ℕ) → ℕ → String → String → List Turn → List SessionMessage
rows_of clock n k r [] = []
rows_of clock n k r (t ∷ ts) = message_of (clock n) k r t ∷ rows_of clock (suc n) k r ts

append_session_messages-rows :
    (clock : ℕ → ℕ) (k r : String) (ts : List Turn) (ms : List SessionMessage)
    → append_session_messages clock k r ts ms ≡ ms ++ rows_of clock (length ms) k r ts
unfolding append_session_messages
append_session_messages-rows clock k r [] ms = sym (append-nil ms)
append_session_messages-rows clock k r (t ∷ ts) ms =
    let m = message_of (clock (length ms)) k r t in
    append_session_messages-rows clock k r ts (ms ++ m ∷ [])
    ∙ append_assoc ms (m ∷ []) (rows_of clock (length (ms ++ m ∷ [])) k r ts)
    ∙ ap (λ n. ms ++ m ∷ rows_of clock n k r ts) (omega (arith, length-append ms (m ∷ [])))

own_turn :
    (now : ℕ) (role k r : String) (t : Turn) (ms : List SessionMessage)
    → turns_by role k r (message_of now k r t ∷ ms)
      ≡ (if str_eq t.role role then suc (turns_by role k r ms) else turns_by role k r ms)
unfolding turns_by
own_turn now role k r t ms = simp eq_refl

own_request :
    (now : ℕ) (k r : String) (t : Turn) (ms : List SessionMessage)
    → has_request_turn k r (message_of now k r t ∷ ms) ≡ true
unfolding has_request_turn
own_request now k r t ms = simp eq_refl

-- the user and assistant turns of what a run appends
appended_turns :
    (clock : ℕ → ℕ) (n : ℕ) (k r : String) (s : OrchestratorState) (b : Bool)
    → let new = rows_of clock n k r (turns_of s b) in
      (turns_by "user" k r new ≡ (if b then 0 else 1))
      × (turns_by "assistant" k r new ≡ 1)
      × (has_request_turn k r new ≡ true)
unfolding turns_of
appended_turns clock n k r s true = (
  own_turn _ "user" k r _ [] ∙ turns_by-nil "user" k r,
  own_turn _ "assistant" k r _ [] ∙ ap suc (turns_by-nil "assistant" k r),
  own_request _ k r _ [],
)
appended_turns clock n k r s false = (
  own_turn _ "user" k r _ _ ∙ ap suc (own_turn _ "user" k r _ [] ∙ turns_by-nil "user" k r),
  own_turn _ "assistant" k r _ _
      ∙ own_turn _ "assistant" k r _ []
      ∙ ap suc (turns_by-nil "assistant" k r),
  own_request _ k r _ _,
)

turns-Persists :
    (clock : ℕ → ℕ) (k r : String) (s : OrchestratorState) (ms : List SessionMessage) (b : Bool)
    → has_request_turn k r ms ≡ b
    → Persists k r ms (append_session_messages clock k r (turns_of s b) ms)
turns-Persists clock k r s ms b e =
    let new = rows_of clock (length ms) k r (turns_of s b) in
    let (user, assistant, there) = appended_turns clock (length ms) k r s b in
    rw (append_session_messages-rows clock k r (turns_of s b) ms) (
      rw e (turns_by-append "user" k r ms new ∙ counted b e user),
      turns_by-append "assistant" k r ms new ∙ ap (λ n. turns_by "assistant" k r ms + n) assistant,
      ground (arith, has_request_turn-append k r ms new),
      (new, refl),
    )
  where
    counted :
        (b : Bool) {n : ℕ}
        → has_request_turn k r ms ≡ b
        → n ≡ (if b then 0 else 1)
        → turns_by "user" k r ms + n ≡ (if b then turns_by "user" k r ms else 1)
    counted true e h = ground arith
    counted false e h = ground (arith, no_turns "user" k r ms e)

-- `_persist_session_context`, with a memory service and a session, leaves in the message table one user
-- turn of the request in all, unless the request had turns before, whose number of user turns then
-- stays; one assistant turn more; and every message of before, in its place. This holds also where the
-- call raises then, in the extraction or for a `memory["extraction"]` that is no dict.
pub persist-Persists :
    (sv : Services) (service : MemoryService) (k : String) (s : OrchestratorState) (w : World)
    → sv.memory_service ≡ some service
    → given s.session_id ≡ some k
    → Persists k s.request_id w.messages (persist_session_context sv s w).1.messages
unfolding persist_session_context
persist-Persists sv service k s w m g =
    rw (m, g)
      (turns-Persists service.clock k s.request_id s w.messages
        (has_request_turn k s.request_id w.messages) refl)
