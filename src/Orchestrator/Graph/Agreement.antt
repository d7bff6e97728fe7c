-- ===== src/Orchestrator/Graph/Agreement.antt =====
-- The two orchestrators agree: the loop of app/orchestrator/runner.py, and the graph of
-- app/orchestrator/langgraph_runner.py as an engine walks through it.
use general_agent_framework.Prelude.{
  ℕ, zero, suc, String, ◌+◌, ◌*◌, ◌≤◌, ◌≡◌, refl, sym, ◌∙◌, min, ltb, true, Option, none, some,
  arith, subst,
}
use general_agent_framework.Outcome.{Outcome, returned, raised}
use general_agent_framework.Orchestrator.State.{WorkflowStatus, OrchestratorState}
use general_agent_framework.Orchestrator.Base.{Services, World}
use general_agent_framework.Orchestrator.Session.{given, load_given, load_context}
use general_agent_framework.Memory.{MemoryService}
use general_agent_framework.Orchestrator.Simple.{
  Flow, next, stop, start, run_step, after_round, loop,
}
use general_agent_framework.Orchestrator.Graph.{GraphState, settled}
use general_agent_framework.Orchestrator.Graph.AgentStep.{agent_step_at, execute_agent_step}
use general_agent_framework.Orchestrator.Graph.Engine.{
  agent_step, route_after_agent_step, build_graph, walk, Engine,
}
use general_agent_framework.Orchestrator.Graph.Nodes.{Alike, Follows}
use general_agent_framework.Orchestrator.Graph.Rounds.{round-Follows}

-- An outcome of the loop, and one of a walk that has ended.
abbrev pub Reaches :
    Outcome OrchestratorState × World → Option (Outcome GraphState × World) → Type 0
Reaches (raised e, w) x = x ≡ some (raised e, w)
Reaches (returned s, w) x =
    (t : GraphState) × (x ≡ some (returned t, w)) × Alike s t.orchestrator_state

module _ (sv : Services) (max_graph_steps : ℕ) where
  -- the number of the next round, and what is left of the limit
  abbrev InStep : ℕ → ℕ → ℕ → OrchestratorState → Type 0
  InStep left k fuel s =
      (s.status ≡ WorkflowStatus.running)
      × ((id : String) × (s.current_agent_id ≡ some id))
      × (k + left ≡ s.max_steps)
      × (s.max_steps ≤ max_graph_steps)
      × (2 * left + 1 ≤ fuel)

  exhausted-Reaches :
      (k fuel : ℕ) (s : OrchestratorState) (w : World)
      → InStep 0 k (suc fuel) s
      → Reaches
          (loop sv 0 (k + 1) s w)
          (walk (build_graph sv max_graph_steps) (suc fuel) agent_step (settled k s) w)
  unfolding loop walk build_graph execute_agent_step agent_step_at route_after_agent_step
  exhausted-Reaches k fuel s w (on, (id, named), at, within, enough) =
      rw (named, over) (_, refl, refl)
    where
      over : ltb (min s.max_steps max_graph_steps) (k + 1) ≡ true
      over = ground arith

  after_round-Reaches :
      (left k fuel : ℕ) (s : OrchestratorState) (o : Outcome Flow × World)
      (x : Option (Outcome GraphState × World))
      → InStep (suc left) k (suc (suc fuel)) s
      → ((rest : ℕ) (t : OrchestratorState) (w : World)
          → InStep left (k + 1) rest t
          → Reaches
              (loop sv left (k + 1 + 1) t w)
              (walk (build_graph sv max_graph_steps) rest agent_step (settled (k + 1) t) w))
      → Follows sv max_graph_steps (k + 1) fuel s o x
      → Reaches (after_round (loop sv left (k + 1 + 1)) o.0 o.1) x
  unfolding after_round
  after_round-Reaches left k fuel s (raised e, w) x now ih h = h
  after_round-Reaches left k fuel s (returned (stop t), w) x now ih h = h
  after_round-Reaches left k fuel s (returned (next t), w) x now ih (rest, more, e, kept, named) =
      rw e (ih rest t w (kept.0 ∙ now.0, named, omega arith, omega arith, omega arith))

  loop-Reaches :
      (left k fuel : ℕ) (s : OrchestratorState) (w : World)
      → InStep left k fuel s
      → Reaches
          (loop sv left (k + 1) s w)
          (walk (build_graph sv max_graph_steps) fuel agent_step (settled k s) w)
  unfolding loop walk build_graph execute_agent_step
  loop-Reaches left k zero s w now = absurd (omega arith)
  loop-Reaches zero k (suc fuel) s w now = exhausted-Reaches k fuel s w now
  loop-Reaches (suc left) k (suc zero) s w now = absurd (omega arith)
  loop-Reaches (suc left) k (suc (suc fuel)) s w now =
      after_round-Reaches left k fuel s (run_step sv (k + 1) s w) _ now
        (λ rest t v. loop-Reaches left (k + 1) rest t v)
        (round-Follows sv max_graph_steps (k + 1) fuel s w now.0 (omega arith))

-- The two ends: the same exception, or states that are alike, and the same world.
abbrev pub SameEnd : Outcome OrchestratorState × World → Outcome GraphState × World → Type 0
SameEnd (raised e, w) (raised e', w') = (e ≡ e') × (w ≡ w')
SameEnd (returned s, w) (returned t, w') = Alike s t.orchestrator_state × (w ≡ w')
SameEnd _ _ = ⊥

Reaches-SameEnd :
    (o : Outcome OrchestratorState × World) (x : Option (Outcome GraphState × World))
    → Reaches o x
    → (y : Outcome GraphState × World) × (x ≡ some y) × SameEnd o y
Reaches-SameEnd (raised e, w) x h = ((raised e, w), h, (refl, refl))
Reaches-SameEnd (returned s, w) x (t, h, alike) = ((returned t, w), h, (alike, refl))

load_context-kept :
    (sv : Services) (s : OrchestratorState) (w : World)
    → ((load_context sv s w).status ≡ s.status)
      × ((load_context sv s w).current_agent_id ≡ s.current_agent_id)
      × ((load_context sv s w).max_steps ≡ s.max_steps)
unfolding load_context
load_context-kept sv s w = go sv.memory_service (given s.session_id)
  where
    go :
        (service : Option MemoryService) (session_id : Option String)
        → ((load_given service session_id s w).status ≡ s.status)
          × ((load_given service session_id s w).current_agent_id ≡ s.current_agent_id)
          × ((load_given service session_id s w).max_steps ≡ s.max_steps)
    go (some service) (some id) = ground arith
    go (some service) none = ground arith
    go none id = ground arith

start-InStep :
    (sv : Services) (max_graph_steps : ℕ) (s : OrchestratorState) (w : World) (fuel : ℕ)
    → s.max_steps ≤ max_graph_steps
    → 2 * s.max_steps + 1 ≤ fuel
    → InStep sv max_graph_steps s.max_steps 0 fuel (start sv s w)
unfolding start
start-InStep sv max_graph_steps s w fuel within enough =
    let begun = record s {
      status = WorkflowStatus.running;
      current_agent_id = some s.initial_agent_id;
    } in
    let (on, named, bound) = load_context-kept sv begun w in
    (on, (s.initial_agent_id, named), omega arith, omega arith, enough)

-- Where the graph's own bound on the steps does not undercut the request's, and the engine's limit
-- lets each step take two nodes, the graph ends as the loop does: with the same exception, or with
-- states that differ at most in the error messages and in the agent that would be next; and what
-- was done to the world is the same.
pub ainvoke-loop :
    (engine : Engine) (sv : Services) (max_graph_steps : ℕ) (s : OrchestratorState) (w : World)
    → s.max_steps ≤ max_graph_steps
    → 2 * s.max_steps + 1 ≤ engine.recursion_limit
    → SameEnd
        (loop sv s.max_steps 1 (start sv s w) w)
        (engine.ainvoke (build_graph sv max_graph_steps) (settled 0 (start sv s w)) w)
ainvoke-loop engine sv max_graph_steps s w within enough =
    let graph = build_graph sv max_graph_steps in
    let g = settled 0 (start sv s w) in
    let (y, e, same) =
      Reaches-SameEnd (loop sv s.max_steps 1 (start sv s w) w)
        (walk graph engine.recursion_limit agent_step g w)
        (loop-Reaches sv max_graph_steps s.max_steps 0 engine.recursion_limit (start sv s w) w
          (start-InStep sv max_graph_steps s w engine.recursion_limit within enough)) in
    subst (SameEnd (loop sv s.max_steps 1 (start sv s w) w)) (sym (engine.follows graph g w y e))
      same
