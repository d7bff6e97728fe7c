-- ===== src/Knowledge/Seeds/Samples.antt =====
-- Two legs and their seeds. The module holds the tests and the examples of the theorems on the seeds.
use general_agent_framework.Prelude.{
  String, ◌≤◌, ◌≡◌, refl, true, some, List, [], ◌∷◌, length, get_elem?, All, arith,
}
use general_agent_framework.Json.{num, end}
use general_agent_framework.Agents.{contains}
use general_agent_framework.Orchestrator.References.{NoRepeats}
use general_agent_framework.Knowledge.{KnowledgeHit}
use general_agent_framework.Knowledge.Seeds.{clause_key, visit_legs, seed_clause_ids}
use general_agent_framework.Knowledge.Seeds.Coverage.{covers, seed_clause_ids-firsts}

abbrev hit : String → String → KnowledgeHit
hit id parent = record {
  id = id;
  title = "";
  content = "";
  score = num 1;
  source = "";
  parent_id = parent;
  parent_text = "";
  metadata_payload = end;
}

abbrev legs : List (List KnowledgeHit)
legs = (hit "a1" "a" ∷ hit "a2" " a " ∷ hit "b1" "b" ∷ []) ∷ (hit "c1" "" ∷ hit "a3" "a" ∷ []) ∷ []

round_robin : seed_clause_ids 4 legs 3 ≡ some ("a" ∷ "c1" ∷ "b" ∷ [])
unfolding seed_clause_ids visit_legs clause_key contains
round_robin = refl

seed_clause_ids-firsts_example :
    (ss : List String) × (seed_clause_ids 4 legs 2 ≡ some ss)
    × NoRepeats ss
    × (length ss ≤ 2)
    × (2 ≤ 2 → All (λ leg. covers ss (get_elem? leg 0) ≡ true) legs)
seed_clause_ids-firsts_example = seed_clause_ids-firsts legs 2 (omega arith)
