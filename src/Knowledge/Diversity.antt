-- ===== src/Knowledge/Diversity.antt =====
-- The transforms of app/knowledge/diversity.py. The limits are natural numbers, so that the
-- `ValueError` of a negative `overflow_limit` is not modelled.
use general_agent_framework.Prelude.{
  ℕ, String, ◌+◌, ◌-◌, Bool, true, ◌&&◌, Option, none, some, List, [], ◌∷◌, ◌++◌, ltb, leb, ◌==◌,
  length, take, drop, str_eq, count, if◌then◌else◌,
}
use general_agent_framework.Prelude.Dict.{Dict, get, put, has}
use general_agent_framework.Json.{num, str, bool, assign}
use general_agent_framework.Outcome.{
  Outcome, returned, raised, ◌>>=◌, key_error, repr_key, value_error,
}
use general_agent_framework.Knowledge.{KnowledgeHit, or_else}

-- `d.get(k, 0)`
unfoldable pub per : String → Dict ℕ → ℕ
per k d = elim (get k d) [ none ↦ 0 | some n ↦ n ]

-- `hit.parent_id or hit.id`
unfoldable pub parent_of : KnowledgeHit → String
unfolding or_else
parent_of hit = or_else hit.parent_id hit.id

-- the three containers of `collapse_by_parent`
pub record Families : Type 0 where
  pub survivors : Dict KnowledgeHit
  pub dropped : Dict ℕ
  pub order : List String

-- one round of the first loop
unfoldable pub adopt : KnowledgeHit → Families → Families
adopt hit f =
    let key = parent_of hit in
    if has key f.survivors
    then record f { dropped = put key (per key f.dropped + 1) f.dropped }
    else record f { survivors = put key hit f.survivors; order = f.order ++ key ∷ [] }

unfoldable pub adopt_all : List KnowledgeHit → Families → Families
adopt_all [] f = f
adopt_all (h ∷ hs) f = adopt_all hs (adopt h f)

-- the survivor with the number of its dropped siblings, where there are some
unfoldable pub with_siblings : ℕ → KnowledgeHit → KnowledgeHit
unfolding assign
with_siblings n hit =
    if n == 0
    then hit
    else record hit { metadata_payload = assign "collapsed_siblings" (num n) hit.metadata_payload }

survivor : Families → String → Option KnowledgeHit → Outcome KnowledgeHit
survivor f key none = raised (record { class = key_error; text = repr_key key })
survivor f key (some hit) = returned (with_siblings (per key f.dropped) hit)

-- the second loop, over the keys that are left
unfoldable pub collapsed : Families → List String → Outcome (List KnowledgeHit)
unfolding survivor
collapsed f [] = returned []
collapsed f (key ∷ order) = survivor f key (get key f.survivors) >>= λ hit.
    collapsed f order >>= λ hits. returned (hit ∷ hits)

unfoldable pub collapse_by_parent : List KnowledgeHit → Outcome (List KnowledgeHit)
unfolding collapsed adopt_all
collapse_by_parent hits =
    let f = adopt_all hits (record { survivors = []; dropped = []; order = [] }) in
    collapsed f f.order

-- `hit.source or hit.id`
unfoldable pub group_of : KnowledgeHit → String
unfolding or_else
group_of hit = or_else hit.source hit.id

-- the three containers of `cap_per_document`
pub record Picks : Type 0 where
  pub kept : List KnowledgeHit
  pub skipped : List KnowledgeHit
  pub per_source : Dict ℕ

unfoldable pub keep_hit : KnowledgeHit → Picks → Picks
keep_hit hit p =
    let key = group_of hit in
    record p {
      kept = p.kept ++ hit ∷ [];
      per_source = put key (per key p.per_source + 1) p.per_source;
    }

unfoldable pub skip_hit : KnowledgeHit → Picks → Picks
skip_hit hit p = record p { skipped = p.skipped ++ hit ∷ [] }

unfoldable pub has_room : ℕ → KnowledgeHit → Picks → Bool
has_room max_per_document hit p = ltb (per (group_of hit) p.per_source) max_per_document

-- How the loop ends: by its early return, or after the last hit.
pub data Walk : Type 0 where
  full ended : Picks → Walk

unfoldable pub walk : (max_per_document limit : ℕ) → List KnowledgeHit → Picks → Walk
walk max_per_document limit [] p = ended p
walk max_per_document limit (hit ∷ hits) p =
    let room = has_room max_per_document hit p in
    let p' = if room then keep_hit hit p else skip_hit hit p in
    let rest = walk max_per_document limit hits p' in
    if room && leb limit (length p'.kept) then full p' else rest

-- what is returned at either end
unfoldable pub capped : (limit overflow_limit : ℕ) → Walk → List KnowledgeHit × List KnowledgeHit
capped limit overflow_limit (full p) = (p.kept, take overflow_limit p.skipped)
capped limit overflow_limit (ended p) =
    let backfill = take (limit - length p.kept) p.skipped in
    (p.kept ++ backfill, take overflow_limit (drop (length backfill) p.skipped))

unfoldable pub cap_per_document :
    List KnowledgeHit
    → (max_per_document limit overflow_limit : ℕ) → Outcome (List KnowledgeHit × List KnowledgeHit)
unfolding walk capped
cap_per_document hits max_per_document limit overflow_limit =
    if ltb max_per_document 1
    then raised (record { class = value_error; text = "max_per_document must be >= 1, got 0" })
    else if ltb limit 1
    then returned ([], [])
    else returned (
        capped limit overflow_limit
          (walk max_per_document limit hits (record { kept = []; skipped = []; per_source = [] })))

unfoldable pub expand_hit : KnowledgeHit → KnowledgeHit
unfolding assign
expand_hit hit = if str_eq hit.parent_text "" then hit else record hit {
  content = hit.parent_text;
  metadata_payload = assign "expanded_to_parent" (bool true) (
      assign "matched_child_char_len" (num (count hit.content))
        (assign "matched_child_id" (str hit.id) hit.metadata_payload));
}

unfoldable pub expand_to_parent : List KnowledgeHit → List KnowledgeHit
unfolding expand_hit
expand_to_parent [] = []
expand_to_parent (hit ∷ hits) = expand_hit hit ∷ expand_to_parent hits
