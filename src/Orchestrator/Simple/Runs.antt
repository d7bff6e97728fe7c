-- ===== src/Orchestrator/Simple/Runs.antt =====
-- The loop of the simple orchestrator: how it ends, and the trail that it leaves.
use general_agent_framework.Prelude.{
  ℕ, zero, suc, String, ◌+◌, ◌≤◌, ◌≡◌, refl, inl, inr, true, List, [], ◌∷◌, ◌++◌, map, arith,
  length, length-append, All, All-append,
}
use general_agent_framework.Outcome.{Outcome, returned, raised}
use general_agent_framework.Agents.Registry.{IsConsistent, exists}
use general_agent_framework.Orchestrator.State.{OrchestratorState, AgentRunRecord}
use general_agent_framework.Orchestrator.Base.{Services, World}
use general_agent_framework.Orchestrator.Simple.Rounds.{IsSettled, Advances, append_ne_nil}
use general_agent_framework.Orchestrator.Simple.Steps.{Stepped, Stays, run_step-Stepped}
use general_agent_framework.Orchestrator.Simple.{
  Flow, next, stop, Rounds, after_round, loop, run_step,
}

-- The records are numbered from `i` on.
abbrev pub IsNumbered : ℕ → List AgentRunRecord → Type 0
IsNumbered i [] = Unit
IsNumbered i (r ∷ rs) = (r.step_index ≡ i) × IsNumbered (i + 1) rs

abbrev pub agents_of : List AgentRunRecord → List String
agents_of = map (λ r. r.agent_id)

-- One record for each agent that was called since `calls`, numbered from 1, of registered agents,
-- and the execution path names the same agents in the same order.
pub record HasTrail (sv : Services) (calls : ℕ) (s : OrchestratorState) (w : World) : Type 0 where
  pub numbered : IsNumbered 1 s.run_history
  pub path : s.execution_path ≡ agents_of s.run_history
  pub called : w.agent_calls ≡ calls + length s.run_history
  pub known : All (λ id. exists sv.registry id ≡ true) s.execution_path

IsNumbered-append :
    (i j : ℕ) (rs : List AgentRunRecord) (r : AgentRunRecord)
    → IsNumbered i rs
    → j ≡ i + length rs
    → r.step_index ≡ j
    → IsNumbered i (rs ++ r ∷ [])
IsNumbered-append i j [] r h e q = (omega arith, tt)
IsNumbered-append i j (x ∷ rs) r h e q = (h.0, IsNumbered-append (i + 1) j rs r h.1 (omega arith) q)

agents_of-append :
    (rs : List AgentRunRecord) (r : AgentRunRecord)
    → agents_of (rs ++ r ∷ []) ≡ agents_of rs ++ r.agent_id ∷ []
agents_of-append [] r = refl
agents_of-append (x ∷ rs) r = rw (agents_of-append rs r)

Advances-HasTrail :
    (sv : Services) (calls i : ℕ) (id : String) (s s' : OrchestratorState) (w w' : World)
    → HasTrail sv calls s w
    → i ≡ 1 + length s.run_history
    → Advances sv id i s s' w w'
    → HasTrail sv calls s' w'
Advances-HasTrail sv calls i id s s' w w' h e (rec, known, index, agent, path, history, called) =
    record {
      numbered = rw history (IsNumbered-append 1 i s.run_history rec h.numbered e index);
      path = rw (path, history, agents_of-append s.run_history rec, h.path, agent);
      called =
          rw (history, called, h.called) (omega (arith, length-append s.run_history (rec ∷ [])));
      known = rw path (All-append _ s.execution_path (id ∷ []) h.known (known, tt));
    }

pub Stays-HasTrail :
    (sv : Services) (calls : ℕ) (s s' : OrchestratorState) (w w' : World)
    → HasTrail sv calls s w
    → Stays s s' w w'
    → HasTrail sv calls s' w'
Stays-HasTrail sv calls s s' w w' h (path, history, called) = record {
  numbered = rw history h.numbered;
  path = rw (path, history) h.path;
  called = rw (called, history) h.called;
  known = rw path h.known;
}

-- The run has ended as it should: settled, with its trail, after at most `bound` agents.
abbrev pub Ends : Services → ℕ → ℕ → Outcome OrchestratorState × World → Type 0
Ends sv calls bound (raised e, w) = Unit
Ends sv calls bound (returned s, w) =
    IsSettled s × HasTrail sv calls s w × (length s.run_history ≤ bound)

module _ (sv : Services) (calls bound : ℕ) (v : IsConsistent sv.registry) where
  length-Advances :
      (i : ℕ) (id : String) (s s' : OrchestratorState) (w w' : World)
      → Advances sv id i s s' w w'
      → length s'.run_history ≡ length s.run_history + 1
  length-Advances i id s s' w w' (rec, known, index, agent, path, history, called) =
      rw history (omega (arith, length-append s.run_history (rec ∷ [])))

  after_round-Ends :
      (rest : Rounds) (i left : ℕ) (s : OrchestratorState) (w : World) (o : Outcome Flow)
      (w' : World)
      → ((t : OrchestratorState) (x : World)
          → HasTrail sv calls t x
          → length t.run_history ≡ i
          → Ends sv calls bound (rest t x))
      → HasTrail sv calls s w
      → i ≡ 1 + length s.run_history
      → i + left ≡ bound
      → Stepped sv i s w (o, w')
      → Ends sv calls bound (after_round rest o w')
  unfolding after_round
  after_round-Ends rest i left s w (raised e) w' ih h e1 e2 st = tt
  after_round-Ends rest i left s w (returned (next t)) w' ih h e1 e2 (id, adv) =
      ih t w' (Advances-HasTrail sv calls i id s t w w' h e1 adv)
        (omega (arith, length-Advances i id s t w w' adv))
  after_round-Ends rest i left s w (returned (stop t)) w' ih h e1 e2 (settled, inl (id, adv)) = (
    settled,
    Advances-HasTrail sv calls i id s t w w' h e1 adv,
    omega (arith, length-Advances i id s t w w' adv),
  )
  after_round-Ends rest i left s w (returned (stop t)) w' ih h e1 e2 (settled, inr stays) =
      (settled, Stays-HasTrail sv calls s t w w' h stays, rw (stays.1) (omega arith))

  pub loop-Ends :
      (left i : ℕ) (s : OrchestratorState) (w : World)
      → HasTrail sv calls s w
      → i ≡ 1 + length s.run_history
      → length s.run_history + left ≡ bound
      → Ends sv calls bound (loop sv left i s w)
  unfolding loop
  loop-Ends zero i s w h e b = (
    append_ne_nil s.errors _ (λ q. cc),
    Stays-HasTrail sv calls s _ w w h (refl, refl, refl),
    omega arith,
  )
  loop-Ends (suc left) i s w h e b =
      let (o, w') = run_step sv i s w in
      after_round-Ends (loop sv left (i + 1)) i left s w o w'
        (λ t x k q. loop-Ends left (i + 1) t x k (omega arith) (omega arith)) h e (omega arith)
        (run_step-Stepped sv i s w v)
