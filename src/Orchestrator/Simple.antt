-- ===== src/Orchestrator/Simple.antt =====
-- The simple orchestrator: app/orchestrator/runner.py. One round of the `for` loop is `run_step`,
-- which ends in `stop` where the loop breaks and in `next` where it goes on.
pub mod Tools
pub mod Rounds
pub mod Steps
pub mod Runs
pub mod Endings
pub mod Progress
pub mod Returns
use Prim.Native.String.{◌++◌ as append}
use general_agent_framework.Prelude.{
  ℕ, zero, suc, String, ◌+◌, Bool, true, false, ◌||◌, Option, none, some, List, [], ◌∷◌, ◌++◌,
  if◌then◌else◌,
}
use general_agent_framework.Json.{end}
use general_agent_framework.Outcome.{Outcome, returned, raised, ◌>>=◌, Exception, class_name}
use general_agent_framework.Agents.{
  Agent, AgentContext, AgentExecutionStatus, AgentResult, PendingToolCall, agent_result,
}
use general_agent_framework.Agents.Registry.{exists, create}
use general_agent_framework.Orchestrator.State.{
  WorkflowStatus, WorkflowTerminalReason, OrchestratorState,
}
use general_agent_framework.Orchestrator.Base.{
  Services, World, build_agent_context, sync_knowledge_refs, create_human_review_if_needed,
  run_agent, apply_result, persist_runtime_records,
}
use general_agent_framework.Orchestrator.Session.{load_context, persist_session_context}
use Tools.{execute_pending_tools}

pub data Flow : Type 0 where
  next stop : OrchestratorState → Flow

abbrev pub completed : OrchestratorState → OrchestratorState
completed s = record s {
  status = WorkflowStatus.completed;
  terminal_reason = some WorkflowTerminalReason.natural_completion;
}

-- the assignments of a failure, with its messages
abbrev pub failed : WorkflowTerminalReason → List String → OrchestratorState → OrchestratorState
failed reason messages s = record s {
  status = WorkflowStatus.failed;
  terminal_reason = some reason;
  errors = s.errors ++ messages;
}

abbrev pub cleared : OrchestratorState → OrchestratorState
cleared s = record s { current_agent_id = none }

unfoldable pub exception_message : String → Exception → String
exception_message agent_id exc = append "Agent '" (
    append agent_id
      (append "' raised an exception: " (append (class_name exc.class) (append ": " exc.text))))

unfoldable pub failure_result : String → String → AgentResult
failure_result agent_id message = record {
  agent_id = agent_id;
  status = AgentExecutionStatus.failed;
  summary = message;
  output = end;
  messages = [];
  tool_calls = [];
  next_agent_id = none;
  requires_human = false;
  errors = message ∷ [];
  metrics = end;
}

-- the handler of an agent's exception; building the result validates it, outside any handler
unfoldable pub agent_raised : ℕ → String → Exception → OrchestratorState → Outcome OrchestratorState
unfolding agent_result failure_result
agent_raised step_index agent_id exc s =
    let message = exception_message agent_id exc in
    agent_result (failure_result agent_id message) >>= λ r.
    apply_result step_index r (failed WorkflowTerminalReason.agent_exception (message ∷ []) s)
    >>= λ s'. returned (cleared s')

abbrev pub is_failed : AgentExecutionStatus → Bool
is_failed AgentExecutionStatus.failed = true
is_failed _ = false

abbrev pub asks_review : AgentResult → Bool
asks_review r =
    r.requires_human || elim r.status [ AgentExecutionStatus.needs_human_review ↦ true | _ ↦ false ]

-- the routing at the end of a round
unfoldable pub route : Option String → OrchestratorState → Flow
route none s = stop (cleared (completed s))
route (some id) s = next (record s { current_agent_id = some id })

unfoldable pub after_tools : Option String → Outcome (Bool × OrchestratorState) → Outcome Flow
unfolding route
after_tools next_id (raised e) = raised e
after_tools next_id (returned (true, s)) = returned (route next_id s)
after_tools next_id (returned (false, s)) = returned (stop s)

unfoldable pub with_tools :
    Services
    → String
    → Option String
    → List PendingToolCall
    → OrchestratorState
    → World
    → Outcome Flow × World
unfolding route after_tools
with_tools sv owner next_id [] s w = (returned (route next_id s), w)
with_tools sv owner next_id (c ∷ cs) s w =
    let (o, w') = execute_pending_tools sv owner (c ∷ cs) s w in (after_tools next_id o, w')

-- what follows `_apply_result` on a result that the agent returned
unfoldable pub dispatch : Services → AgentResult → OrchestratorState → World → Outcome Flow × World
unfolding with_tools
dispatch sv r s w =
    if is_failed r.status
    then (returned (stop (cleared (failed WorkflowTerminalReason.agent_failed [] s))), w)
    else if asks_review r
    then (
      returned (
          stop (record s {
            status = WorkflowStatus.needs_human_review;
            terminal_reason = some WorkflowTerminalReason.needs_human_review;
          })),
      w,
    )
    else with_tools sv r.agent_id r.next_agent_id r.tool_calls s w

unfoldable pub stopped : Outcome OrchestratorState → Outcome Flow
stopped (returned s) = returned (stop s)
stopped (raised e) = raised e

unfoldable pub apply_and_dispatch :
    Services → AgentResult → Outcome OrchestratorState → World → Outcome Flow × World
unfolding dispatch
apply_and_dispatch sv r (raised e) w = (raised e, w)
apply_and_dispatch sv r (returned s) w = dispatch sv r s w

-- `agent.run` gave this outcome
unfoldable pub after_agent :
    Services → ℕ → String → Outcome AgentResult → OrchestratorState → World → Outcome Flow × World
unfolding agent_raised stopped apply_and_dispatch
after_agent sv step_index agent_id (raised exc) s w =
    (stopped (agent_raised step_index agent_id exc s), w)
after_agent sv step_index agent_id (returned r) s w =
    apply_and_dispatch sv r (apply_result step_index r s) w

unfoldable pub with_context :
    Services
    → ℕ
    → String
    → Agent
    → Outcome AgentContext
    → OrchestratorState
    → World
    → Outcome Flow × World
unfolding after_agent
with_context sv step_index agent_id agent (raised exc) s w =
    after_agent sv step_index agent_id (raised exc) s w
with_context sv step_index agent_id agent (returned context) s w =
    let (o, w') = run_agent agent context w in after_agent sv step_index agent_id o s w'

-- The context is built inside the `try`, so that its exception is the agent's.
unfoldable pub call_agent :
    Services → ℕ → String → Agent → OrchestratorState → World → Outcome Flow × World
unfolding with_context
call_agent sv step_index agent_id agent s w =
    with_context sv step_index agent_id agent (build_agent_context sv s) s w

unfoldable pub create_and_call :
    Services → ℕ → String → Outcome Agent → OrchestratorState → World → Outcome Flow × World
unfolding call_agent
create_and_call sv step_index agent_id (raised e) s w = (raised e, w)
create_and_call sv step_index agent_id (returned agent) s w =
    call_agent sv step_index agent_id agent s w

abbrev pub unregistered : String → String
unregistered agent_id = append "Agent '" (append agent_id "' is not registered.")

unfoldable pub step_at :
    Services → ℕ → Option String → OrchestratorState → World → Outcome Flow × World
unfolding create_and_call
step_at sv step_index none s w = (returned (stop (completed s)), w)
step_at sv step_index (some agent_id) s w =
    if exists sv.registry agent_id
    then create_and_call sv step_index agent_id (create sv.registry agent_id) s w
    else (
      returned (
          stop (failed WorkflowTerminalReason.agent_not_registered (unregistered agent_id ∷ []) s)),
      w,
    )

unfoldable pub run_step : Services → ℕ → OrchestratorState → World → Outcome Flow × World
unfolding step_at
run_step sv step_index s w = step_at sv step_index s.current_agent_id s w

abbrev pub exhausted : OrchestratorState → OrchestratorState
exhausted =
    failed WorkflowTerminalReason.max_steps_exceeded
      ("Workflow exceeded max_steps before completion." ∷ [])

abbrev pub Rounds : Type 0
Rounds = OrchestratorState → World → Outcome OrchestratorState × World

-- a round's end: `break`, or the further rounds
unfoldable pub after_round : Rounds → Outcome Flow → World → Outcome OrchestratorState × World
after_round rest (raised e) w = (raised e, w)
after_round rest (returned (stop s)) w = (returned s, w)
after_round rest (returned (next s)) w = rest s w

-- The `for` loop and its `else`: `left` rounds are left, and `step_index` is the next one's number.
unfoldable pub loop : Services → (left step_index : ℕ) → Rounds
unfolding after_round
loop sv zero step_index s w = (returned (exhausted s), w)
loop sv (suc left) step_index s w =
    let (o, w') = run_step sv step_index s w in after_round (loop sv left (step_index + 1)) o w'

unfoldable pub synced :
    Services → Outcome OrchestratorState → World → Outcome OrchestratorState × World
synced sv (raised e) w = (raised e, w)
synced sv (returned s) w = (returned s, persist_runtime_records sv s w)

unfoldable pub persisted :
    Services → Outcome OrchestratorState → World → Outcome OrchestratorState × World
unfolding synced
persisted sv (raised e) w = (raised e, w)
persisted sv (returned s) w =
    let (s', w') = create_human_review_if_needed sv s w in synced sv (sync_knowledge_refs s') w'

-- what follows the loop, on the state that it left
unfoldable pub finish : Services → OrchestratorState → World → Outcome OrchestratorState × World
unfolding persisted
finish sv s w = let (o, w') = persist_session_context sv s w in persisted sv o w'

-- `status` and `current_agent_id` as a run begins, with the session context
unfoldable pub start : Services → OrchestratorState → World → OrchestratorState
start sv s w =
    load_context sv
      (record s { status = WorkflowStatus.running; current_agent_id = some s.initial_agent_id }) w

unfoldable pub looped :
    Services → Outcome OrchestratorState → World → Outcome OrchestratorState × World
unfolding finish
looped sv (raised e) w = (raised e, w)
looped sv (returned s) w = finish sv s w

unfoldable pub run : Services → OrchestratorState → World → Outcome OrchestratorState × World
unfolding start loop looped
run sv s w = let (o, w') = loop sv s.max_steps 1 (start sv s w) w in looped sv o w'
