-- ===== src/Knowledge/Samples.antt =====
-- Two documents, one of which has most of the hits: examples of the theorems on retrieval.
use general_agent_framework.Prelude.{
  String, ◌≡◌, refl, min, false, List, [], ◌∷◌, map, arith, length,
}
use general_agent_framework.Json.{num, end}
use general_agent_framework.Outcome.{returned}
use general_agent_framework.Knowledge.{KnowledgeHit}
use general_agent_framework.Knowledge.Diversity.{
  cap_per_document, collapse_by_parent, has_room, per, keep_hit, group_of, skip_hit,
}
use general_agent_framework.Prelude.Dict.{get, put}
use general_agent_framework.Knowledge.Quota.{
  IsCapped, cap_per_document-IsCapped, length-cap_per_document,
}
use general_agent_framework.Knowledge.Siblings.{firsts, representative, collapse_by_parent-firsts}

abbrev hit : String → String → String → KnowledgeHit
hit id source parent_id = record {
  id = id;
  title = "";
  content = id;
  score = num 1;
  source = source;
  parent_id = parent_id;
  parent_text = "";
  metadata_payload = end;
}

abbrev hits : List KnowledgeHit
hits =
    hit "a1" "statute" "a"
    ∷ hit "a2" "statute" "a"
    ∷ hit "b1" "statute" "b"
    ∷ hit "c1" "notice" ""
    ∷ []

cap_per_document-IsCapped_example :
    (result : List KnowledgeHit × List KnowledgeHit) × (cap_per_document hits 1 3 2
      ≡ returned result)
    × IsCapped 1 3 2 hits result
cap_per_document-IsCapped_example = cap_per_document-IsCapped hits 1 3 2 (omega arith) (omega arith)

capped-hits :
    cap_per_document hits 1 3 2
    ≡ returned (
      hit "a1" "statute" "a" ∷ hit "c1" "notice" "" ∷ hit "a2" "statute" "a" ∷ [],
      hit "b1" "statute" "b" ∷ [],
    )
unfolding cap_per_document get put has_room per keep_hit group_of skip_hit
capped-hits = refl

length-cap_per_document_example :
    length (hit "a1" "statute" "a" ∷ hit "c1" "notice" "" ∷ hit "a2" "statute" "a" ∷ []) ≡ min 3 4
length-cap_per_document_example =
    length-cap_per_document hits
      (hit "a1" "statute" "a" ∷ hit "c1" "notice" "" ∷ hit "a2" "statute" "a" ∷ [])
      (hit "b1" "statute" "b" ∷ []) 1 3 2 capped-hits

collapse_by_parent-firsts_example :
    collapse_by_parent hits ≡ returned (map (representative hits) (firsts (λ k. false) hits))
collapse_by_parent-firsts_example = collapse_by_parent-firsts hits
