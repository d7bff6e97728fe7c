-- ===== src/Orchestrator/Session.antt =====
-- The session context around a run: `_load_session_context` and `_persist_session_context` of
-- app/orchestrator/base.py.
use Prim.Native.String.{◌++◌ as append}
use general_agent_framework.Prelude.{
  String, Bool, Option, none, some, List, [], ◌∷◌, ◌++◌, str_eq, if◌then◌else◌,
}
use general_agent_framework.Json.{num, update}
use general_agent_framework.Outcome.{Outcome, returned, ◌>>=◌}
use general_agent_framework.Agents.{AgentResult}
use general_agent_framework.Memory.{
  Turn, MemoryService, load_session_context, has_request_turn, append_session_messages,
}
use general_agent_framework.Orchestrator.State.{OrchestratorState}
use general_agent_framework.Orchestrator.Base.{Services, World, put_in_memory}

-- Python's truth of an optional text
abbrev pub given : Option String → Option String
given none = none
given (some s) = if str_eq s "" then none else some s

unfoldable pub load_with : MemoryService → String → OrchestratorState → World → OrchestratorState
load_with service session_id s w = record s {
  memory =
      update s.memory (load_session_context service w.messages session_id s.user_id s.project_key);
}

unfoldable pub load_given :
    Option MemoryService → Option String → OrchestratorState → World → OrchestratorState
unfolding load_with
load_given (some service) (some session_id) s w = load_with service session_id s w
load_given _ _ s w = s

unfoldable pub load_context : Services → OrchestratorState → World → OrchestratorState
unfolding load_given
load_context sv s w = load_given sv.memory_service (given s.session_id) s w

-- `"; ".join(errors)`
unfoldable pub join_errors : List String → String
join_errors [] = ""
join_errors (e ∷ []) = e
join_errors (e ∷ f ∷ es) = append e (append "; " (join_errors (f ∷ es)))

unfoldable pub or_text : Option String → String
or_text none = ""
or_text (some s) = s

summary_of : Option AgentResult → String
summary_of none = ""
summary_of (some r) = r.summary

unfoldable pub assistant_output : OrchestratorState → String
unfolding summary_of join_errors
assistant_output s =
    if str_eq (summary_of s.final_result) ""
    then join_errors s.errors
    else summary_of s.final_result

-- The user's turn is left out where the request has persisted turns already.
unfoldable pub turns_of : OrchestratorState → Bool → List Turn
unfolding assistant_output or_text
turns_of s has_turn =
    (if has_turn
      then []
      else record { role = "user"; content = or_text s.input_text; step_index = 1 } ∷ [])
    ++ record { role = "assistant"; content = assistant_output s; step_index = 2 } ∷ []

unfoldable pub persist_with :
    MemoryService → String → OrchestratorState → World → Outcome OrchestratorState × World
unfolding turns_of put_in_memory
persist_with service session_id s w =
    let turns = turns_of s (has_request_turn session_id s.request_id w.messages) in
    let stored = service.extract (or_text s.input_text) (assistant_output s) in
    (
      stored >>= λ n. put_in_memory "extraction" "stored_count" (num n) s.memory >>= λ m.
          returned (record s { memory = m }),
      record w {
        messages = append_session_messages service.clock session_id s.request_id turns w.messages;
      },
    )

unfoldable pub persist_given :
    Option MemoryService
    → Option String
    → OrchestratorState
    → World
    → Outcome OrchestratorState × World
unfolding persist_with
persist_given (some service) (some session_id) s w = persist_with service session_id s w
persist_given _ _ s w = (returned s, w)

unfoldable pub persist_session_context :
    Services → OrchestratorState → World → Outcome OrchestratorState × World
unfolding persist_given
persist_session_context sv s w = persist_given sv.memory_service (given s.session_id) s w
