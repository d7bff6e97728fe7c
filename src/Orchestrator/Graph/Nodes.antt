-- ===== src/Orchestrator/Graph/Nodes.antt =====
-- A node of the graph beside the part of a round that it stands for: the tool step, and what follows
-- the agent's result.
use general_agent_framework.Prelude.{
  ℕ, suc, String, ◌≤◌, ◌≡◌, refl, Bool, true, false, not, ◌&&◌, str_eq, Option, none, some, List,
  [], ◌∷◌, ◌++◌, arith, Bool-cases, inl, inr,
}
use general_agent_framework.Json.{Value}
use general_agent_framework.Outcome.{Outcome, returned, raised, ◌>>=◌}
use general_agent_framework.Agents.{Agent, AgentResult, PendingToolCall}
use general_agent_framework.Agents.Registry.{exists, create}
use general_agent_framework.Tools.{ToolCallRequest, ToolResult}
use general_agent_framework.Tools.Executor.{ToolExecutor}
use general_agent_framework.Orchestrator.State.{WorkflowStatus, OrchestratorState}
use general_agent_framework.Orchestrator.Json.{tool_result_json}
use general_agent_framework.Orchestrator.Base.{Services, World}
use general_agent_framework.Orchestrator.Simple.{
  Flow, next, stop, dispatch, with_tools, after_tools, route, is_failed, asks_review,
}
use general_agent_framework.Orchestrator.Simple.Tools.{
  Calls, request_of, run_call, run_calls, after_call, tool_failed, owned_calls, execute_with,
  execute_pending_tools,
}
use general_agent_framework.Orchestrator.Graph.{GraphState, settled, with_calls, onward}
use general_agent_framework.Orchestrator.Graph.AgentStep.{dispatched, dispatched_calls}
use general_agent_framework.Orchestrator.Graph.ToolStep.{
  after_calls, call_tools, tool_step_with, tool_step_calls, execute_tool_step,
}
use general_agent_framework.Orchestrator.Graph.Engine.{
  agent_step, tool_step, route_after_agent_step, route_after_tool_step, Graph, build_graph,
  after_node, walk,
}

-- Two states are the same but for the error messages and for the agent that would be next.
abbrev pub essence : OrchestratorState → OrchestratorState
essence s = record s { current_agent_id = none; errors = [] }

abbrev pub Alike : OrchestratorState → OrchestratorState → Type 0
Alike s t = essence s ≡ essence t

-- The run goes on: what the two orchestrators read of a state to decide so.
abbrev pub GoesOn : OrchestratorState → OrchestratorState → Type 0
GoesOn s s' = (s'.status ≡ s.status) × (s'.max_steps ≡ s.max_steps)

-- the tool calls keep a run going, or fail it
abbrev Kept : OrchestratorState → Outcome (Bool × OrchestratorState) × World → Type 0
Kept s (raised e, w) = Unit
Kept s (returned (true, s'), w) = GoesOn s s'
Kept s (returned (false, s'), w) = s'.status ≡ WorkflowStatus.failed

abbrev Called : OrchestratorState → Outcome (ToolResult × OrchestratorState) × World → Type 0
Called s (raised e, w) = Unit
Called s (returned (r, s'), w) = GoesOn s s'

run_call-Called :
    (ex : ToolExecutor) (agent : Agent) (owner : String) (c : ToolCallRequest)
    (s : OrchestratorState) (w : World)
    → Called s (run_call ex agent owner c s w)
unfolding run_call
run_call-Called ex agent owner c s w = ground arith

status-tool_failed :
    (request : ToolCallRequest) (result : ToolResult) (executed : List Value)
    (s : OrchestratorState)
    → (tool_failed request result executed s).status ≡ WorkflowStatus.failed
unfolding tool_failed
status-tool_failed request result executed s = refl

after_call-Kept :
    (rest : Calls) (request : ToolCallRequest) (executed : List Value)
    (o : Outcome (ToolResult × OrchestratorState)) (s : OrchestratorState) (w : World)
    → ((x : List Value) (t : OrchestratorState) (v : World) → Kept t (rest x t v))
    → Called s (o, w)
    → Kept s (after_call rest request executed o w)
unfolding after_call
after_call-Kept rest request executed (raised e) s w ih h = tt
after_call-Kept rest request executed (returned (result, s')) s w ih h =
    let executed' = executed ++ tool_result_json result ∷ [] in
    ground (arith, ih executed' s' w, status-tool_failed request result executed' s')

run_calls-Kept :
    (ex : ToolExecutor) (agent : Agent) (owner : String) (cs : List PendingToolCall)
    (executed : List Value) (s : OrchestratorState) (w : World)
    → Kept s (run_calls ex agent owner cs executed s w)
unfolding run_calls
run_calls-Kept ex agent owner [] executed s w = (refl, refl)
run_calls-Kept ex agent owner (c ∷ cs) executed s w =
    let (o, w') = run_call ex agent owner (request_of c) s w in
    after_call-Kept (run_calls ex agent owner cs) (request_of c) executed o s w'
      (run_calls-Kept ex agent owner cs) (run_call-Called ex agent owner (request_of c) s w)

module _ (sv : Services) (max_graph_steps i : ℕ) where
  abbrev graph : Graph
  graph = build_graph sv max_graph_steps

  -- What the walk gives, `fuel` nodes after the two that a round may take, for a round that left the
  -- flow: the same exception, a state alike, or the walk from the next round's agent step.
  abbrev pub Follows :
      ℕ → OrchestratorState → Outcome Flow × World → Option (Outcome GraphState × World) → Type 0
  Follows fuel s (raised e, w) x = x ≡ some (raised e, w)
  Follows fuel s (returned (stop s'), w) x =
      (t : GraphState) × (x ≡ some (returned t, w)) × Alike s' t.orchestrator_state
  Follows fuel s (returned (next s'), w) x =
      (rest : ℕ) × (fuel ≤ rest)
      × (x ≡ walk (build_graph sv max_graph_steps) rest agent_step (settled i s') w)
      × GoesOn s s'
      × ((id : String) × (s'.current_agent_id ≡ some id))

  -- the edges out of the tool step
  abbrev tooled : ℕ → Outcome GraphState × World → Option (Outcome GraphState × World)
  tooled fuel (o, w) =
      after_node (walk graph fuel) (o >>= λ g. returned (route_after_tool_step g, g)) w

  after_calls-Follows :
      (fuel : ℕ) (next_id : Option String) (s : OrchestratorState)
      (o : Outcome (Bool × OrchestratorState)) (w : World)
      → s.status ≡ WorkflowStatus.running
      → Kept s (o, w)
      → Follows fuel s (after_tools next_id o, w) (tooled fuel (after_calls i next_id o, w))
  unfolding after_tools after_calls onward route route_after_tool_step
  after_calls-Follows fuel next_id s (raised e) w on kept = refl
  after_calls-Follows fuel none s (returned (true, s')) w on kept = (_, refl, refl)
  after_calls-Follows fuel (some id) s (returned (true, s')) w on kept =
      (fuel, omega arith, rw (kept.0, on) refl, kept, (id, refl))
  after_calls-Follows fuel next_id s (returned (false, s')) w on kept =
      (settled i s', rw kept refl, refl)

  call_tools-Follows :
      (fuel : ℕ) (ex : ToolExecutor) (o : Outcome Agent) (owner : String) (next_id : Option String)
      (cs : List PendingToolCall) (s : OrchestratorState) (w : World)
      → s.status ≡ WorkflowStatus.running
      → let (c, w') = owned_calls ex o owner cs s w in
        Follows fuel s
          (after_tools next_id c, w')
          (tooled fuel (call_tools ex o i owner next_id cs s w))
  unfolding owned_calls call_tools after_tools
  call_tools-Follows fuel ex (raised e) owner next_id cs s w on = refl
  call_tools-Follows fuel ex (returned agent) owner next_id cs s w on =
      let (o, w') = run_calls ex agent owner cs [] s w in
      after_calls-Follows fuel next_id s o w' on (run_calls-Kept ex agent owner cs [] s w)

  tool_step_with-Follows :
      (fuel : ℕ) (x : Option ToolExecutor) (owner : String) (next_id : Option String)
      (cs : List PendingToolCall) (s : OrchestratorState) (w : World)
      → s.status ≡ WorkflowStatus.running
      → let (c, w') = execute_with x sv owner cs s w in
        Follows fuel s
          (after_tools next_id c, w')
          (tooled fuel (tool_step_with sv x i (some owner) next_id cs s w))
  unfolding execute_with tool_step_with after_tools route_after_tool_step
  tool_step_with-Follows fuel none owner next_id cs s w on = (_, refl, refl)
  tool_step_with-Follows fuel (some ex) owner next_id cs s w on =
      elim (Bool-cases (not (str_eq owner "") && exists sv.registry owner)) [
        | inl e ↦
            rw e (call_tools-Follows fuel ex (create sv.registry owner) owner next_id cs s w on)
        | inr e ↦ rw e (_, refl, refl)
      ]

  -- the edges out of the agent step
  abbrev pub ran : ℕ → Outcome GraphState × World → Option (Outcome GraphState × World)
  ran fuel (o, w) =
      after_node (walk graph fuel) (o >>= λ g. returned (route_after_agent_step g, g)) w

  still_pending :
      (owner : String) (next_id : Option String) (c : PendingToolCall) (cs : List PendingToolCall)
      (s : OrchestratorState)
      → s.status ≡ WorkflowStatus.running
      → route_after_agent_step (with_calls i owner next_id (c ∷ cs) s) ≡ tool_step
  unfolding route_after_agent_step
  still_pending owner next_id c cs s on = rw on refl

  calls-Follows :
      (fuel : ℕ) (owner : String) (next_id : Option String) (c : PendingToolCall)
      (cs : List PendingToolCall) (s : OrchestratorState) (w : World)
      → s.status ≡ WorkflowStatus.running
      → Follows fuel s
          (with_tools sv owner next_id (c ∷ cs) s w)
          (ran (suc fuel) (returned (with_calls i owner next_id (c ∷ cs) s), w))
  unfolding with_tools execute_pending_tools walk build_graph execute_tool_step tool_step_calls
  calls-Follows fuel owner next_id c cs s w on =
      rw (still_pending owner next_id c cs s on)
        (tool_step_with-Follows fuel sv.tool_executor owner next_id (c ∷ cs) s w on)

  pub dispatch-Follows :
      (fuel : ℕ) (r : AgentResult) (s : OrchestratorState) (w : World)
      → s.status ≡ WorkflowStatus.running
      → Follows fuel s (dispatch sv r s w) (ran (suc fuel) (returned (dispatched i r s), w))
  unfolding dispatch dispatched dispatched_calls onward with_tools route route_after_agent_step
  dispatch-Follows fuel r s w on = elim (Bool-cases (is_failed r.status)) [
    | inl e ↦ rw e (_, refl, refl)
    | inr e ↦ rw e (elim (Bool-cases (asks_review r)) [
      | inl q ↦ rw q (_, refl, refl)
      | inr q ↦ rw q (tools r.next_agent_id r.tool_calls)
    ])
  ]
    where
      tools :
          (next_id : Option String) (cs : List PendingToolCall)
          → Follows fuel s
              (with_tools sv r.agent_id next_id cs s w)
              (ran (suc fuel) (returned (dispatched_calls i r.agent_id next_id cs s), w))
      tools none [] = (_, refl, refl)
      tools (some id) [] = (suc fuel, omega arith, rw on refl, (refl, refl), (id, refl))
      tools next_id (c ∷ cs) = calls-Follows fuel r.agent_id next_id c cs s w on
