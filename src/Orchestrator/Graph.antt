-- ===== src/Orchestrator/Graph.antt =====
-- The LangGraph orchestrator: the dict that the nodes of app/orchestrator/langgraph_runner.py hand on.
-- A key that a node leaves out of its dict reads as its default later, and is written as that default.
pub mod AgentStep
pub mod ToolStep
pub mod Engine
pub mod Agreement
pub mod Rounds
pub mod Nodes
mod Samples
use Prim.Native.String.{◌++◌ as append}
use general_agent_framework.Prelude.{
  ℕ, zero, suc, String, ◌+◌, ◌≡◌, min, Bool, true, false, not, ◌&&◌, Option, none, some, List, [],
  ◌∷◌, ltb, str_eq, if◌then◌else◌,
}
use general_agent_framework.Outcome.{Outcome, returned, raised, ◌>>=◌, Exception}
use general_agent_framework.Agents.{Agent, AgentContext, AgentResult, PendingToolCall, agent_result}
use general_agent_framework.Agents.Registry.{exists, create}
use general_agent_framework.Tools.Executor.{ToolExecutor}
use general_agent_framework.Orchestrator.State.{
  WorkflowStatus, WorkflowTerminalReason, OrchestratorState,
}
use general_agent_framework.Orchestrator.Base.{
  Services, World, build_agent_context, run_agent, apply_result,
}
use general_agent_framework.Orchestrator.Simple.{
  completed, failed, cleared, exhausted, exception_message, failure_result, is_failed, asks_review,
  unregistered, start, looped,
}
use general_agent_framework.Orchestrator.Simple.Tools.{tool_failure, run_calls}

-- the dict that the nodes hand on
pub record GraphState : Type 0 where
  pub orchestrator_state : OrchestratorState
  pub step_index : ℕ
  pub pending_tool_calls : List PendingToolCall
  pub tool_owner_agent_id : Option String
  pub pending_next_agent_id : Option String

-- a node's dict with nothing pending
abbrev pub settled : ℕ → OrchestratorState → GraphState
settled i s = record {
  orchestrator_state = s;
  step_index = i;
  pending_tool_calls = [];
  tool_owner_agent_id = none;
  pending_next_agent_id = none;
}

abbrev pub with_calls :
    ℕ → String → Option String → List PendingToolCall → OrchestratorState → GraphState
with_calls i owner next_id calls s = record {
  orchestrator_state = s;
  step_index = i;
  pending_tool_calls = calls;
  tool_owner_agent_id = some owner;
  pending_next_agent_id = next_id;
}

-- to the next agent, or to the end
unfoldable pub onward : Option String → OrchestratorState → OrchestratorState
onward none s = cleared (completed s)
onward (some id) s = record s { current_agent_id = some id }
