-- ===== src/Orchestrator/Graph/Engine.antt =====
-- The graph and the run: `_build_graph` and `run` of app/orchestrator/langgraph_runner.py. The graph
-- engine is a library, so that it is a parameter: `Engine` has the call `ainvoke` and what its
-- documentation says of it.
use general_agent_framework.Prelude.{
  ℕ, zero, suc, ◌≡◌, Bool, true, false, Option, none, some, List, [], ◌∷◌, if◌then◌else◌,
}
use general_agent_framework.Outcome.{Outcome, returned, raised, ◌>>=◌, Exception}
use general_agent_framework.Agents.{PendingToolCall}
use general_agent_framework.Orchestrator.State.{WorkflowStatus, OrchestratorState}
use general_agent_framework.Orchestrator.Base.{Services, World}
use general_agent_framework.Orchestrator.Simple.{start, looped}
use general_agent_framework.Orchestrator.Graph.{GraphState, settled}
use general_agent_framework.Orchestrator.Graph.AgentStep.{execute_agent_step}
use general_agent_framework.Orchestrator.Graph.ToolStep.{execute_tool_step}

pub data Node : Type 0 where
  agent_step tool_step end_node : Node

abbrev pub is_terminal : WorkflowStatus → Bool
is_terminal WorkflowStatus.pending = false
is_terminal WorkflowStatus.running = false
is_terminal _ = true

abbrev pub pending_node : List PendingToolCall → Node
pending_node [] = agent_step
pending_node (_ ∷ _) = tool_step

unfoldable pub route_after_agent_step : GraphState → Node
route_after_agent_step g =
    if is_terminal g.orchestrator_state.status then end_node else pending_node g.pending_tool_calls

unfoldable pub route_after_tool_step : GraphState → Node
route_after_tool_step g = if is_terminal g.orchestrator_state.status then end_node else agent_step

-- A graph: what a node does, and the node that its conditional edges give.
abbrev pub Graph : Type 0
Graph = Node → GraphState → World → Outcome (Node × GraphState) × World

-- `_build_graph`
unfoldable pub build_graph : Services → ℕ → Graph
build_graph sv max_graph_steps agent_step g w =
    let (o, w') = execute_agent_step sv max_graph_steps g w in
    (o >>= λ g'. returned (route_after_agent_step g', g'), w')
build_graph sv max_graph_steps tool_step g w =
    let (o, w') = execute_tool_step sv g w in
    (o >>= λ g'. returned (route_after_tool_step g', g'), w')
build_graph sv max_graph_steps end_node g w = (returned (end_node, g), w)

-- The walk through a graph, of at most `limit` nodes: `none` means that it goes on after these.
abbrev pub after_node :
    (Node → GraphState → World → Option (Outcome GraphState × World))
    → Outcome (Node × GraphState)
    → World
    → Option (Outcome GraphState × World)
after_node rest (raised e) w = some (raised e, w)
after_node rest (returned (end_node, g)) w = some (returned g, w)
after_node rest (returned (agent_step, g)) w = rest agent_step g w
after_node rest (returned (tool_step, g)) w = rest tool_step g w

unfoldable pub walk : Graph → ℕ → Node → GraphState → World → Option (Outcome GraphState × World)
walk graph zero node g w = none
walk graph (suc limit) node g w = let (o, w') = graph node g w in after_node (walk graph limit) o w'

-- The engine: `ainvoke` of a compiled graph starts at the agent step and follows the edges. It
-- raises `GraphRecursionError` where the end is not reached within `recursion_limit` nodes.
pub record Engine : Type 0 where
  pub recursion_limit : ℕ
  pub ainvoke : Graph → GraphState → World → Outcome GraphState × World
  pub follows :
      (graph : Graph) (g : GraphState) (w : World) (r : Outcome GraphState × World)
      → walk graph recursion_limit agent_step g w ≡ some r
      → ainvoke graph g w ≡ r
  pub gives_up :
      (graph : Graph) (g : GraphState) (w : World)
      → walk graph recursion_limit agent_step g w ≡ none
      → (e : Exception) × ((ainvoke graph g w).0 ≡ raised e)

abbrev final_state : Outcome GraphState → Outcome OrchestratorState
final_state (raised e) = raised e
final_state (returned g) = returned g.orchestrator_state

-- `run`; what follows the graph is what follows the loop of the simple orchestrator
unfoldable pub run :
    Engine → Services → ℕ → OrchestratorState → World → Outcome OrchestratorState × World
unfolding start looped
run engine sv max_graph_steps s w =
    let (o, w') = engine.ainvoke (build_graph sv max_graph_steps) (settled 0 (start sv s w)) w in
    looped sv (final_state o) w'
