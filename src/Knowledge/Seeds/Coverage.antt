-- ===== src/Knowledge/Seeds/Coverage.antt =====
-- What the seeds of the graph leg are: `seed_clause_ids` of app/knowledge/graph/expand.py.
use general_agent_framework.Prelude.{
  ℕ, zero, suc, String, ◌+◌, ◌≤◌, ◌<◌, ◌≡◌, refl, Bool, true, false, ◌||◌, Option, none, some, List,
  [], ◌∷◌, ◌++◌, max, ltb, leb, length, get_elem?, str_eq, eq_iff, arith, All, All-imp,
  length-append, Bool-cases, inl, inr,
}
use general_agent_framework.Agents.{contains}
use general_agent_framework.Orchestrator.References.{NoRepeats}
use general_agent_framework.Knowledge.{KnowledgeHit}
use general_agent_framework.Knowledge.Seeds.{
  clause_key, new_seed, Legs, visit_key, visit_leg, visit_legs, seeds_from, seed_clause_ids,
}

contains-snoc :
    (x k : String) (ss : List String) → contains x (ss ++ k ∷ []) ≡ (contains x ss || str_eq k x)
unfolding contains
contains-snoc x k [] = ground arith
contains-snoc x k (s ∷ ss) = ground (arith, contains-snoc x k ss)

NoRepeats-snoc :
    (k : String) (ss : List String)
    → contains k ss ≡ false
    → NoRepeats ss
    → NoRepeats (ss ++ k ∷ [])
unfolding contains
NoRepeats-snoc k [] new h = (refl, tt)
NoRepeats-snoc k (s ∷ ss) new h = (
  ground (arith, contains-snoc s k ss, eq_iff s k, eq_iff k s),
  NoRepeats-snoc k ss (ground arith) h.1,
)

-- the hit has no clause, or its clause is a seed
abbrev pub covers : List String → Option KnowledgeHit → Bool
covers seeds none = true
covers seeds (some hit) = str_eq (clause_key hit) "" || contains (clause_key hit) seeds

-- Seeds are added to seeds, no more than the limit, and where the legs fit below the limit, P holds.
abbrev Adds : ℕ → ℕ → List String → List String → Type 0 → Type 0
Adds legs limit seeds seeds' P =
    NoRepeats seeds'
    × (length seeds' ≤ limit)
    × ((k : String) → contains k seeds ≡ true → contains k seeds' ≡ true)
    × (length seeds + legs ≤ limit → P)

abbrev Visited : ℕ → ℕ → List (List KnowledgeHit) → List String → List String → Type 0
Visited depth limit legs seeds seeds' =
    Adds (length legs) limit seeds seeds'
      (All (λ leg. covers seeds' (get_elem? leg depth) ≡ true) legs)

abbrev Visits : ℕ → ℕ → List (List KnowledgeHit) → Legs → Type 0
Visits depth limit legs rest =
    (seeds : List String)
    → length seeds < limit
    → NoRepeats seeds
    → Visited depth limit legs seeds (rest seeds).1

none_left :
    (P : List KnowledgeHit → Type 0) (legs : List (List KnowledgeHit))
    → length legs ≡ 0
    → All P legs
none_left P [] e = tt
none_left P (leg ∷ legs) e = absurd (omega arith)

module _ (depth limit : ℕ) (leg : List KnowledgeHit) (legs : List (List KnowledgeHit)) where
  visit_key-Visited :
      (rest : Legs) (seeds : List String) (hit : KnowledgeHit) (o : Option String)
      → Visits depth limit legs rest
      → new_seed seeds (clause_key hit) ≡ o
      → length seeds < limit
      → NoRepeats seeds
      → Adds (suc (length legs)) limit seeds (visit_key rest limit seeds o) (
          (covers (visit_key rest limit seeds o) (some hit) ≡ true)
          × All (λ l. covers (visit_key rest limit seeds o) (get_elem? l depth) ≡ true) legs)
  unfolding visit_key
  visit_key-Visited rest seeds hit none ih new room once =
      let (once', bound, kept, all) = ih seeds room once in
      (once', bound, kept, λ fits. (ground (arith, kept (clause_key hit)), all (omega arith)))
  visit_key-Visited rest seeds hit (some key) ih new room once =
      let seeds' = seeds ++ key ∷ [] in
      let added : contains key seeds ≡ false = ground arith in
      let same : clause_key hit ≡ key = ground arith in
      let once' = NoRepeats-snoc key seeds added once in
      elim (Bool-cases (leb limit (length seeds'))) [
        | inl e ↦ rw e (
          once',
          omega (arith, length-append seeds (key ∷ [])),
          λ k h. ground (arith, contains-snoc k key seeds),
          λ fits. (
            ground (arith, contains-snoc key key seeds, eq_iff key key),
            none_left _ legs (ground (arith, length-append seeds (key ∷ []))),
          ),
        )
        | inr e ↦
            let (once'', bound, kept, all) = ih seeds' (ground arith) once' in
            rw e (
              once'',
              bound,
              λ k h. kept k (ground (arith, contains-snoc k key seeds)),
              λ fits. (
                ground (arith, contains-snoc key key seeds, eq_iff key key, kept key),
                all (omega (arith, length-append seeds (key ∷ []))),
              ),
            )
      ]

visit_legs-Visits :
    (depth limit : ℕ) (legs : List (List KnowledgeHit))
    → Visits depth limit legs (visit_legs depth limit legs)
unfolding visit_legs
visit_legs-Visits depth limit [] seeds room once = (once, omega arith, λ k h. h, λ _. tt)
visit_legs-Visits depth limit (leg ∷ legs) seeds room once =
    at (visit_legs-Visits depth limit legs) (get_elem? leg depth) refl
  where
    at :
        Visits depth limit legs (visit_legs depth limit legs)
        → (o : Option KnowledgeHit) → get_elem? leg depth ≡ o
        → Visited depth limit
            (leg ∷ legs)
            seeds
            (visit_leg (visit_legs depth limit legs) limit seeds o).1
    at ih none e =
        let (once', bound, kept, all) = ih seeds room once in
        (once', bound, kept, λ fits. (rw e refl, all (omega arith)))
    at ih (some hit) e =
        let (once', bound, kept, all) =
          visit_key-Visited depth limit leg legs (visit_legs depth limit legs) seeds hit
            (new_seed seeds (clause_key hit)) ih refl room once in
        (once', bound, kept, λ fits. (rw e (all fits).0, (all fits).1))

-- the number of hits of the longest leg
abbrev pub longest : List (List KnowledgeHit) → ℕ
longest [] = 0
longest (leg ∷ legs) = max (length leg) (longest legs)

beyond : {A : Type 0} (xs : List A) (i : ℕ) → length xs ≤ i → get_elem? xs i ≡ none
beyond [] i h = refl
beyond (x ∷ xs) zero h = absurd (omega arith)
beyond (x ∷ xs) (suc i) h = beyond xs i (omega arith)

no_progress :
    (depth limit : ℕ) (legs : List (List KnowledgeHit)) (seeds : List String)
    → longest legs ≤ depth
    → (visit_legs depth limit legs seeds).0 ≡ false
unfolding visit_legs visit_leg
no_progress depth limit [] seeds deep = refl
no_progress depth limit (leg ∷ legs) seeds deep =
    rw (beyond leg depth (omega arith)) (no_progress depth limit legs seeds (omega arith))

-- The seeds at the end of the loop.
abbrev Seeds : ℕ → List String → List String → Type 0
Seeds limit seeds ss =
    NoRepeats ss
    × (length ss ≤ limit)
    × ((k : String) → contains k seeds ≡ true → contains k ss ≡ true)

progress :
    (depth limit : ℕ) (legs : List (List KnowledgeHit)) (seeds : List String)
    → (visit_legs depth limit legs seeds).0 ≡ true
    → depth < longest legs
progress depth limit legs seeds h = ground (arith, no_progress depth limit legs seeds)

seeds_from-Seeds :
    (fuel depth limit : ℕ) (legs : List (List KnowledgeHit)) (seeds : List String)
    → longest legs < fuel + depth
    → depth ≤ longest legs
    → length seeds ≤ limit
    → NoRepeats seeds
    → (ss : List String) × (seeds_from fuel depth limit legs seeds ≡ some ss) × Seeds limit seeds ss
unfolding seeds_from
seeds_from-Seeds zero depth limit legs seeds enough within room once = absurd (omega arith)
seeds_from-Seeds (suc fuel) depth limit legs seeds enough within room once =
    elim (Bool-cases (ltb (length seeds) limit)) [
      | inr e ↦ rw e (seeds, refl, (once, room, λ k h. h))
      | inl e ↦
          let (once', bound, kept, all) =
            visit_legs-Visits depth limit legs seeds (ground arith) once in
          elim (Bool-cases (visit_legs depth limit legs seeds).0) [
            | inr q ↦ rw (e, q) (_, refl, (once', bound, kept))
            | inl q ↦
                let deeper = progress depth limit legs seeds q in
                let (ss, done, (once'', bound', kept')) =
                  seeds_from-Seeds fuel (depth + 1) limit legs (visit_legs depth limit legs seeds).1
                    (omega arith) (omega arith) bound once' in
                rw (e, q) (ss, done, (once'', bound', λ k h. kept' k (kept k h)))
          ]
    ]

covers-more :
    (seeds ss : List String) (o : Option KnowledgeHit)
    → ((k : String) → contains k seeds ≡ true → contains k ss ≡ true)
    → covers seeds o ≡ true
    → covers ss o ≡ true
covers-more seeds ss none kept h = refl
covers-more seeds ss (some hit) kept h = ground (arith, kept (clause_key hit))

-- The seeds are found within one round more than the longest leg has hits; they have no repeats, and
-- there are at most `limit`. Where the limit leaves a place to each leg, the clause of the first hit
-- of each leg is among them.
pub seed_clause_ids-firsts :
    (legs : List (List KnowledgeHit)) (limit : ℕ)
    → 1 ≤ limit
    → (ss : List String) × (seed_clause_ids (suc (longest legs)) legs limit ≡ some ss)
      × NoRepeats ss
      × (length ss ≤ limit)
      × (length legs ≤ limit → All (λ leg. covers ss (get_elem? leg 0) ≡ true) legs)
unfolding seed_clause_ids seeds_from
seed_clause_ids-firsts legs limit pos =
    let some_room : ltb 0 limit ≡ true = ground arith in
    let first = (visit_legs 0 limit legs []).1 in
    let (once, bound, kept, all) = visit_legs-Visits 0 limit legs [] (omega arith) tt in
    elim (Bool-cases (visit_legs 0 limit legs []).0) [
      | inr q ↦ rw (some_room, q) (first, refl, once, bound, λ fits. all (omega arith))
      | inl q ↦
          let deeper = progress 0 limit legs [] q in
          let (ss, done, (once', bound', kept')) =
            seeds_from-Seeds (longest legs) 1 limit legs first (omega arith) (omega arith) bound
              once in
          rw (some_room, q)
            (
              ss,
              done,
              once',
              bound',
              λ fits.
                  All-imp (λ leg. covers first (get_elem? leg 0) ≡ true) _ legs
                    (λ leg h. covers-more first ss (get_elem? leg 0) kept' h) (all (omega arith)),
            )
    ]
