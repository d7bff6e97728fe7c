-- ===== src/Orchestrator/References.antt =====
-- The knowledge references that a run hands back: `_sync_knowledge_refs` of
-- app/orchestrator/base.py.
use general_agent_framework.Prelude.{
  String, ◌≡◌, refl, Bool, true, false, not, ◌&&◌, ◌||◌, List, [], ◌∷◌, ◌++◌, arith, eq_iff,
}
use general_agent_framework.Json.{find}
use general_agent_framework.Outcome.{returned}
use general_agent_framework.Agents.{contains}
use general_agent_framework.Orchestrator.State.{OrchestratorState}
use general_agent_framework.Orchestrator.Base.{distinct, knowledge_refs_in, sync_knowledge_refs}

abbrev pub NoRepeats : List String → Type 0
NoRepeats [] = Unit
NoRepeats (x ∷ xs) = (contains x xs ≡ false) × NoRepeats xs

contains-append :
    (x : String) (xs ys : List String) → contains x (xs ++ ys) ≡ (contains x xs || contains x ys)
unfolding contains
contains-append x [] ys = refl
contains-append x (y ∷ xs) ys = ground (arith, contains-append x xs ys)

contains-distinct :
    (x : String) (seen xs : List String)
    → contains x (distinct seen xs) ≡ (contains x xs && not (contains x seen))
unfolding distinct contains
contains-distinct x seen [] = refl
contains-distinct x seen (y ∷ xs) =
    go (contains y seen) refl (contains-distinct x seen xs) (contains-distinct x (y ∷ seen) xs)
  where
    go :
        (b : Bool)
        → contains y seen ≡ b
        → contains x (distinct seen xs) ≡ (contains x xs && not (contains x seen))
        → contains x (distinct (y ∷ seen) xs) ≡ (contains x xs && not (contains x (y ∷ seen)))
        → contains x (elim b [ true ↦ distinct seen xs | false ↦ y ∷ distinct (y ∷ seen) xs ])
          ≡ (contains x (y ∷ xs) && not (contains x seen))
    go true q h k = ground (arith, eq_iff y x)
    go false q h k = ground (arith, eq_iff y x)

no_more : (y : String) (seen xs : List String) → contains y (distinct (y ∷ seen) xs) ≡ false
unfolding contains
no_more y seen xs = ground (arith, contains-distinct y (y ∷ seen) xs, eq_iff y y)

distinct-NoRepeats : (seen xs : List String) → NoRepeats (distinct seen xs)
unfolding distinct
distinct-NoRepeats seen [] = tt
distinct-NoRepeats seen (y ∷ xs) =
    go (contains y seen) (distinct-NoRepeats seen xs) (distinct-NoRepeats (y ∷ seen) xs)
  where
    go :
        (b : Bool)
        → NoRepeats (distinct seen xs)
        → NoRepeats (distinct (y ∷ seen) xs)
        → NoRepeats (elim b [ true ↦ distinct seen xs | false ↦ y ∷ distinct (y ∷ seen) xs ])
    go true h k = h
    go false h k = (no_more y seen xs, k)

-- The references of a state whose output section gives `refs`: each of the state's references and
-- of `refs` is there, nothing else is, and nothing is there twice.
pub sync_knowledge_refs-NoRepeats :
    (s s' : OrchestratorState) (refs : List String)
    → knowledge_refs_in (find "agent_outputs" s.shared_state) ≡ returned refs
    → sync_knowledge_refs s ≡ returned s'
    → NoRepeats s'.knowledge_refs
      × ((x : String)
          → contains x s'.knowledge_refs ≡ (contains x s.knowledge_refs || contains x refs))
unfolding sync_knowledge_refs contains
sync_knowledge_refs-NoRepeats s s' refs given done =
    let synced : s'.knowledge_refs ≡ distinct [] (s.knowledge_refs ++ refs) = ground arith in
    rw synced (
      distinct-NoRepeats [] (s.knowledge_refs ++ refs),
      λ x.
          rw
            (
              contains-distinct x [] (s.knowledge_refs ++ refs),
              contains-append x s.knowledge_refs refs,
            )
            (ground arith),
    )
