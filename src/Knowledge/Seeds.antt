-- ===== src/Knowledge/Seeds.antt =====
-- The clauses that the graph leg of the retrieval starts from: `clause_key`, `ClauseTextIndex` and
-- `seed_clause_ids` of app/knowledge/graph/expand.py. The set `seen` holds the same ids as the list
-- `seeds`, so that the list stands for both.
pub mod Coverage
mod Samples
use Prim.Native.Char.{code}
use general_agent_framework.Prelude.{
  ℕ, zero, suc, String, ◌+◌, Bool, true, false, ◌&&◌, ◌||◌, Option, none, some, List, [], ◌∷◌, ◌++◌,
  ◌==◌, ltb, leb, length, get_elem?, str_eq, if◌then◌else◌,
}
use general_agent_framework.Prelude.Dict.{Dict, get, put, has}
use general_agent_framework.Agents.{contains}
use general_agent_framework.Knowledge.{KnowledgeHit, or_else}

-- the code points that Python's `strip` takes off
abbrev is_whitespace : ℕ → Bool
is_whitespace n =
    leb 9 n && leb n 13
    || leb 28 n && leb n 32
    || n == 133
    || n == 160
    || n == 5760
    || leb 8192 n && leb n 8202
    || n == 8232
    || n == 8233
    || n == 8239
    || n == 8287
    || n == 12288

lstrip : String → String
lstrip String.[] = String.[]
lstrip (String.◌∷◌ c s) =
    let rest = lstrip s in if is_whitespace (code c) then rest else String.◌∷◌ c s

rstrip : String → String
rstrip String.[] = String.[]
rstrip (String.◌∷◌ c s) =
    let rest = rstrip s in
    if str_eq rest "" && is_whitespace (code c) then String.[] else String.◌∷◌ c rest

-- `clause_key`
unfoldable pub clause_key : KnowledgeHit → String
unfolding lstrip rstrip or_else
clause_key hit = or_else (rstrip (lstrip hit.parent_id)) hit.id

-- `ClauseTextIndex(chunks)`: the first chunk of a clause wins.
unfoldable pub index_chunks : List KnowledgeHit → Dict KnowledgeHit → Dict KnowledgeHit
index_chunks [] d = d
index_chunks (h ∷ hs) d =
    let kept = index_chunks hs d in
    let added = index_chunks hs (put (clause_key h) h d) in
    if has (clause_key h) d then kept else added

-- one hit of a round: `none` where the clause is no new seed
abbrev pub new_seed : List String → String → Option String
new_seed seeds key = if str_eq key "" || contains key seeds then none else some key

-- the rest of the legs
abbrev pub Legs : Type 0
Legs = List String → Bool × List String

-- a hit of a leg: the loop breaks where the seeds are complete
unfoldable pub visit_key : Legs → ℕ → List String → Option String → List String
visit_key rest limit seeds none = (rest seeds).1
visit_key rest limit seeds (some key) =
    let seeds' = seeds ++ key ∷ [] in if leb limit (length seeds') then seeds' else (rest seeds').1

unfoldable pub visit_leg : Legs → ℕ → List String → Option KnowledgeHit → Bool × List String
unfolding visit_key
visit_leg rest limit seeds none = rest seeds
visit_leg rest limit seeds (some hit) =
    (true, visit_key rest limit seeds (new_seed seeds (clause_key hit)))

-- The `for` loop over the legs: whether one of them reaches this depth, and the seeds.
unfoldable pub visit_legs : ℕ → ℕ → List (List KnowledgeHit) → Legs
unfolding visit_leg
visit_legs depth limit [] seeds = (false, seeds)
visit_legs depth limit (leg ∷ legs) seeds =
    visit_leg (visit_legs depth limit legs) limit seeds (get_elem? leg depth)

-- the `while` loop, on fuel
unfoldable pub seeds_from :
    ℕ → ℕ → ℕ → List (List KnowledgeHit) → List String → Option (List String)
unfolding visit_legs
seeds_from zero depth limit legs seeds = none
seeds_from (suc fuel) depth limit legs seeds =
    let (progressed, seeds') = visit_legs depth limit legs seeds in
    let further = seeds_from fuel (depth + 1) limit legs seeds' in
    if ltb (length seeds) limit then (if progressed then further else some seeds') else some seeds

-- `seed_clause_ids`
unfoldable pub seed_clause_ids : ℕ → List (List KnowledgeHit) → ℕ → Option (List String)
unfolding seeds_from
seed_clause_ids fuel legs limit = seeds_from fuel 0 limit legs []
