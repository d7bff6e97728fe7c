-- ===== src/Orchestrator/Simple/Endings.antt =====
-- Whole runs of the simple orchestrator: what follows the loop keeps the status and the trail.
use general_agent_framework.Prelude.{ℕ, ◌≡◌, [], arith, ◌∙◌}
use general_agent_framework.Outcome.{Outcome, returned, raised}
use general_agent_framework.Agents.Registry.{IsConsistent}
use general_agent_framework.Orchestrator.State.{OrchestratorState}
use general_agent_framework.Orchestrator.Base.{
  Services, World, sync_knowledge_refs, create_human_review_if_needed, persist_runtime_records,
}
use general_agent_framework.Orchestrator.Session.{load_context, persist_session_context}
use general_agent_framework.Orchestrator.Simple.Steps.{Stays}
use general_agent_framework.Orchestrator.Simple.Runs.{Stays-HasTrail, Ends, loop-Ends}
use general_agent_framework.Orchestrator.Simple.{
  loop, synced, persisted, finish, start, looped, run,
}

-- What `finish` leaves alone.
abbrev Keeps : OrchestratorState → World → Outcome OrchestratorState × World → Type 0
Keeps s w (raised e, w') = Unit
Keeps s w (returned s', w') =
    (s'.status ≡ s.status)
    × (s'.terminal_reason ≡ s.terminal_reason)
    × (s'.errors ≡ s.errors)
    × Stays s s' w w'

persist-Keeps :
    (sv : Services) (s : OrchestratorState) (w : World) → Keeps s w (persist_session_context sv s w)
unfolding persist_session_context
persist-Keeps sv s w = ground arith

review_stays :
    (sv : Services) (s : OrchestratorState) (w : World)
    → let (s', w') = create_human_review_if_needed sv s w in Keeps s w (returned s', w')
unfolding create_human_review_if_needed
review_stays sv s w = ground arith

sync-Keeps :
    (sv : Services) (s : OrchestratorState) (w : World)
    → Keeps s w (synced sv (sync_knowledge_refs s) w)
unfolding synced sync_knowledge_refs persist_runtime_records
sync-Keeps sv s w = ground arith

finish-Keeps : (sv : Services) (s : OrchestratorState) (w : World) → Keeps s w (finish sv s w)
unfolding finish
finish-Keeps sv s w = let (o, w') = persist_session_context sv s w in go o w' (persist-Keeps sv s w)
  where
    trans :
        (t : OrchestratorState) (x : World) (o : Outcome OrchestratorState) (y : World)
        → Keeps s w (returned t, x)
        → Keeps t x (o, y)
        → Keeps s w (o, y)
    trans t x (raised e) y h k = tt
    trans t x (returned u) y h k = (cc, cc, cc, (cc, cc, cc))

    go :
        (o : Outcome OrchestratorState) (w' : World)
        → Keeps s w (o, w')
        → Keeps s w (persisted sv o w')
    go (raised e) w' h = tt
    go (returned t) w' h =
        let (s', w'') = create_human_review_if_needed sv t w' in
        let (o, w3) = synced sv (sync_knowledge_refs s') w'' in
        trans s' w'' o w3 (trans t w' (returned s') w'' h (review_stays sv t w'))
          (sync-Keeps sv s' w'')

looped-Ends :
    (sv : Services) (calls bound : ℕ) (o : Outcome OrchestratorState) (w : World)
    → Ends sv calls bound (o, w)
    → Ends sv calls bound (looped sv o w)
unfolding looped
looped-Ends sv calls bound (raised e) w h = tt
looped-Ends sv calls bound (returned s) w (settled, trail, len) =
    let (o, w') = finish sv s w in go o w' (finish-Keeps sv s w)
  where
    go :
        (o : Outcome OrchestratorState) (w' : World)
        → Keeps s w (o, w')
        → Ends sv calls bound (o, w')
    go (raised e) w' k = tt
    go (returned t) w' (status, reason, errors, stays) = (
      rw (status, reason, errors) settled,
      Stays-HasTrail sv calls s t w w' trail stays,
      rw (stays.1) len,
    )

start-fresh :
    (sv : Services) (s : OrchestratorState) (w : World)
    → ((start sv s w).run_history ≡ s.run_history)
      × ((start sv s w).execution_path ≡ s.execution_path)
unfolding start load_context
start-fresh sv s w = ground arith

-- A run of the simple orchestrator that returns, whatever its agents, tools and services answer,
-- ends completed, failed or waiting for a human, with the terminal reason of that status, and with
-- an error message unless an agent itself reported the failure. From a fresh state and a consistent
-- registry its history has one record for each agent that was called, numbered from 1, at most
-- `max_steps` of them, all registered, and the execution path names the same agents in order.
pub run-Ends :
    (sv : Services) (s : OrchestratorState) (w : World)
    → IsConsistent sv.registry
    → s.run_history ≡ []
    → s.execution_path ≡ []
    → Ends sv w.agent_calls s.max_steps (run sv s w)
unfolding run
run-Ends sv s w v h p =
    let (history, path) = start-fresh sv s w in
    let first : (start sv s w).run_history ≡ [] = history ∙ h in
    let (o, w') = loop sv s.max_steps 1 (start sv s w) w in
    looped-Ends sv w.agent_calls s.max_steps o w' (
      loop-Ends sv w.agent_calls s.max_steps v s.max_steps 1 (start sv s w) w
        (record {
          numbered = rw first tt;
          path = rw (first, path ∙ p);
          called = rw first (omega arith);
          known = rw (path ∙ p) tt;
        })
        (rw first (omega arith)) (rw first (omega arith)))
