-- ===== src/Orchestrator/Graph/Samples.antt =====
-- A small engine and its runs. The module holds the tests and the examples of the theorems on the
-- graph.
use general_agent_framework.Prelude.{String, ◌≡◌, refl, ap, Option, none, some, [], ◌∷◌, arith}
use general_agent_framework.Json.{field, str, end}
use general_agent_framework.Outcome.{Outcome, returned, raised, Exception, other}
use general_agent_framework.Agents.{Agent}
use general_agent_framework.Tools
use general_agent_framework.Tools.{is_valid_tool_result}
use general_agent_framework.Orchestrator.Base.{Services, World}
use general_agent_framework.Orchestrator.Samples.{result, services, world, fresh, metadata, program}
use general_agent_framework.Orchestrator.Simple.{start, loop}
use general_agent_framework.Orchestrator.Graph.{GraphState, settled}
use general_agent_framework.Orchestrator.Graph.Engine.{
  Engine, agent_step, build_graph, walk, route_after_agent_step, route_after_tool_step,
}
use general_agent_framework.Orchestrator.Graph.AgentStep.{execute_agent_step}
use general_agent_framework.Orchestrator.Graph.ToolStep.{execute_tool_step}
use general_agent_framework.Orchestrator.Graph.Agreement.{SameEnd, ainvoke-loop}

abbrev recursion_error : Exception
recursion_error = record { class = other "GraphRecursionError"; text = "Recursion limit reached" }

abbrev limited : Option (Outcome GraphState × World) → World → Outcome GraphState × World
limited none w = (raised recursion_error, w)
limited (some r) w = r

-- LangGraph's default limit
abbrev engine : Engine
engine = record {
  recursion_limit = 25;
  ainvoke = λ graph g w. limited (walk graph 25 agent_step g w) w;
  follows = λ graph g w r e. ap (λ o. limited o w) e;
  gives_up = λ graph g w e. (recursion_error, ap (λ o. (limited o w).0) e);
}

ainvoke-loop_example :
    SameEnd
      (loop services 10 1 (start services fresh world) world)
      (engine.ainvoke (build_graph services 20) (settled 0 (start services fresh world)) world)
ainvoke-loop_example = ainvoke-loop engine services 20 fresh world (omega arith) (omega arith)

-- an agent that calls its tool and asks for itself again
abbrev insistent : Agent
insistent = record {
  metadata = metadata "planner_agent" ("echo_tool" ∷ []);
  body = λ n c. returned (
      result "planner_agent" (some "planner_agent")
        (record { tool_name = "echo_tool"; arguments = field "text" (str "hi") end } ∷ []));
}

abbrev again : Services
again = record services {
  registry = record {
    agent_classes = ("planner_agent", insistent) ∷ [];
    agent_metadata = ("planner_agent", insistent.metadata) ∷ [];
  };
}

abbrev unfinished : Outcome GraphState → String
unfinished (raised e) = e.text
unfinished (returned g) = ""

-- Twenty steps with a tool each do not fit into the default limit.
twenty_steps :
    unfinished
      (engine.ainvoke
        (build_graph again 20)
        (settled 0 (start again (record fresh { max_steps = 20 }) world))
        world).0
    ≡ "Recursion limit reached"
unfolding walk build_graph execute_agent_step execute_tool_step route_after_agent_step
    route_after_tool_step start program Tools.create Tools.run
twenty_steps = refl
