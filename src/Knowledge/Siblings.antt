-- ===== src/Knowledge/Siblings.antt =====
-- The collapse of sibling children: `collapse_by_parent` keeps the first hit of each clause.
use mathlib.Core.List.{append-nil, append_assoc}
use general_agent_framework.Prelude.{
  All, map, ℕ, suc, String, ◌+◌, ◌-◌, ◌≡◌, refl, sym, ◌∙◌, ap, Bool, true, false, ◌||◌, Option,
  none, some, List, [], ◌∷◌, ◌++◌, str_eq, ◌==◌, eq_iff, arith, if◌then◌else◌,
}
use text.Mathlib.TextPositions.{eq_refl}
use general_agent_framework.Prelude.Dict.{Dict, get, put, get-put, has}
use general_agent_framework.Json.{num, assign}
use general_agent_framework.Outcome.{returned}
use general_agent_framework.Knowledge.{KnowledgeHit}
use general_agent_framework.Knowledge.Diversity.{
  per, parent_of, Families, adopt, adopt_all, with_siblings, collapsed, collapse_by_parent,
}

All-imp :
    {P Q : KnowledgeHit → Type 0} (hs : List KnowledgeHit)
    → ((h : KnowledgeHit) → P h → Q h)
    → All P hs
    → All Q hs
All-imp [] f a = tt
All-imp (h ∷ hs) f a = (f h a.0, All-imp hs f a.1)

-- How many of the hits are of the clause.
unfoldable pub children : String → List KnowledgeHit → ℕ
children k [] = 0
children k (h ∷ hs) = let rest = children k hs in if str_eq (parent_of h) k then suc rest else rest

-- the first hit of the clause
unfoldable pub first_of : String → List KnowledgeHit → Option KnowledgeHit
first_of k [] = none
first_of k (h ∷ hs) = if str_eq (parent_of h) k then some h else first_of k hs

-- The hits whose clause is not among `seen` and has no earlier hit.
unfoldable pub firsts : (String → Bool) → List KnowledgeHit → List KnowledgeHit
firsts seen [] = []
firsts seen (h ∷ hs) =
    let rest = firsts (λ k. seen k || str_eq (parent_of h) k) hs in
    if seen (parent_of h) then rest else h ∷ rest

or_first : Option KnowledgeHit → Option KnowledgeHit → Option KnowledgeHit
or_first none o = o
or_first (some h) o = some h

-- after the first loop: the survivors
adopt_all-survivors :
    (k : String) (hs : List KnowledgeHit) (f : Families)
    → get k (adopt_all hs f).survivors ≡ or_first (get k f.survivors) (first_of k hs)
unfolding adopt_all adopt or_first first_of
adopt_all-survivors k [] f = ground arith
adopt_all-survivors k (h ∷ hs) f = ground (
  arith,
  adopt_all-survivors k hs (adopt h f),
  get-put (parent_of h) k h f.survivors,
  eq_iff (parent_of h) k,
)

per-put :
    (k j : String) (n : ℕ) (d : Dict ℕ) → per j (put k n d) ≡ (if str_eq k j then n else per j d)
unfolding per
per-put k j n d = ground (arith, get-put k j n d)

-- the siblings of the first hit
adopt_all-dropped :
    (k : String) (hs : List KnowledgeHit) (f : Families)
    → per k (adopt_all hs f).dropped
      ≡ per k f.dropped + (if has k f.survivors then children k hs else children k hs - 1)
unfolding adopt_all adopt children
adopt_all-dropped k [] f = ground arith
adopt_all-dropped k (h ∷ hs) f = ground (
  arith,
  adopt_all-dropped k hs (adopt h f),
  get-put (parent_of h) k h f.survivors,
  per-put (parent_of h) k (per (parent_of h) f.dropped + 1) f.dropped,
  eq_iff (parent_of h) k,
)

-- the keys of the new survivors
unfoldable keys_of : List KnowledgeHit → List String
keys_of [] = []
keys_of (h ∷ hs) = parent_of h ∷ keys_of hs

has-adopt :
    (k : String) (h : KnowledgeHit) (f : Families)
    → has k (adopt h f).survivors ≡ (has k f.survivors || str_eq (parent_of h) k)
unfolding adopt
has-adopt k h f = ground (arith, get-put (parent_of h) k h f.survivors, eq_iff (parent_of h) k)

order-adopt :
    (h : KnowledgeHit) (f : Families)
    → (adopt h f).order
      ≡ (if has (parent_of h) f.survivors then f.order else f.order ++ parent_of h ∷ [])
unfolding adopt
order-adopt h f = ground arith

adopt_all-order :
    (hs : List KnowledgeHit) (f : Families) (seen : String → Bool)
    → ((k : String) → has k f.survivors ≡ seen k)
    → (adopt_all hs f).order ≡ f.order ++ keys_of (firsts seen hs)
unfolding adopt_all firsts keys_of
adopt_all-order [] f seen e = sym (append-nil f.order)
adopt_all-order (h ∷ hs) f seen e =
    let seen' : String → Bool = λ k. seen k || str_eq (parent_of h) k in
    let later =
      adopt_all-order hs (adopt h f) seen'
        (λ k. has-adopt k h f ∙ ap (λ b. b || str_eq (parent_of h) k) (e k)) in
    later ∙ go (seen (parent_of h)) (order-adopt h f ∙ rw (e (parent_of h)) refl) (firsts seen' hs)
  where
    go :
        (b : Bool)
        → (adopt h f).order ≡ (if b then f.order else f.order ++ parent_of h ∷ [])
        → (new : List KnowledgeHit)
        → (adopt h f).order ++ keys_of new ≡ f.order ++ keys_of (if b then new else h ∷ new)
    go true o new = rw o refl
    go false o new = rw o (append_assoc f.order (parent_of h ∷ []) (keys_of new))

first_of-skip :
    (k : String) (h : KnowledgeHit) (hs : List KnowledgeHit)
    → str_eq (parent_of h) k ≡ false
    → first_of k (h ∷ hs) ≡ first_of k hs
unfolding first_of
first_of-skip k h hs e = rw e refl

first_of-here :
    (h : KnowledgeHit) (hs : List KnowledgeHit) → first_of (parent_of h) (h ∷ hs) ≡ some h
unfolding first_of
first_of-here h hs = simp eq_refl

-- each of the first hits is the first one of its clause
firsts-first_of :
    (hs : List KnowledgeHit) (seen : String → Bool)
    → All
        (λ h. (seen (parent_of h) ≡ false) × (first_of (parent_of h) hs ≡ some h))
        (firsts seen hs)
unfolding firsts
firsts-first_of [] seen = tt
firsts-first_of (h ∷ hs) seen = go (seen (parent_of h)) refl _ (
    All-imp _ (λ x (quiet, first). later x quiet first)
      (firsts-first_of hs (λ k. seen k || str_eq (parent_of h) k)))
  where
    IsFirst : KnowledgeHit → Type 0
    IsFirst x = (seen (parent_of x) ≡ false) × (first_of (parent_of x) (h ∷ hs) ≡ some x)

    later :
        (x : KnowledgeHit)
        → (seen (parent_of x) || str_eq (parent_of h) (parent_of x)) ≡ false
        → first_of (parent_of x) hs ≡ some x
        → IsFirst x
    later x quiet first = (ground arith, first_of-skip (parent_of x) h hs (ground arith) ∙ first)

    go :
        (b : Bool)
        → seen (parent_of h) ≡ b
        → (new : List KnowledgeHit) → All IsFirst new
        → All IsFirst (if b then new else h ∷ new)
    go true q new a = a
    go false q new a = ((q, first_of-here h hs), a)

-- the second loop, where the survivors are those of the hits
collapsed-map :
    (f : Families) (hs : List KnowledgeHit)
    → All (λ h. get (parent_of h) f.survivors ≡ some h) hs
    → collapsed f (keys_of hs)
      ≡ returned (map (λ h. with_siblings (per (parent_of h) f.dropped) h) hs)
unfolding collapsed keys_of
collapsed-map f [] a = refl
collapsed-map f (h ∷ hs) a = rw (a.0, collapsed-map f hs a.1) refl

-- The hit that stands for its clause: it is as it was where the clause has no other hit, and else has
-- the number of the others under "collapsed_siblings" in its payload.
abbrev pub representative : List KnowledgeHit → KnowledgeHit → KnowledgeHit
representative hits h =
    let others = children (parent_of h) hits - 1 in
    if others == 0
    then h
    else record h { metadata_payload = assign "collapsed_siblings" (num others) h.metadata_payload }

initial : Families
initial = record { survivors = []; dropped = []; order = [] }

initial-survivors :
    (k : String) (hits : List KnowledgeHit)
    → get k (adopt_all hits initial).survivors ≡ first_of k hits
unfolding get initial first_of or_first
initial-survivors k hits = adopt_all-survivors k hits initial ∙ refl

initial-dropped :
    (k : String) (hits : List KnowledgeHit)
    → per k (adopt_all hits initial).dropped ≡ children k hits - 1
unfolding get per initial
initial-dropped k hits = adopt_all-dropped k hits initial ∙ omega arith

initial-order :
    (hits : List KnowledgeHit) → (adopt_all hits initial).order ≡ keys_of (firsts (λ k. false) hits)
unfolding get initial
initial-order hits = adopt_all-order hits initial (λ k. false) (λ k. refl)

map-cong :
    (f g : KnowledgeHit → KnowledgeHit) (hs : List KnowledgeHit)
    → ((h : KnowledgeHit) → f h ≡ g h)
    → map f hs ≡ map g hs
map-cong f g [] e = refl
map-cong f g (h ∷ hs) e = rw (e h, map-cong f g hs e) refl

-- The collapse never fails, and keeps, in rank order, the first hit of each clause, with the number
-- of the other hits of the clause under "collapsed_siblings" in its payload where there are some.
pub collapse_by_parent-firsts :
    (hits : List KnowledgeHit)
    → collapse_by_parent hits ≡ returned (map (representative hits) (firsts (λ k. false) hits))
unfolding collapse_by_parent initial with_siblings
collapse_by_parent-firsts hits =
    let f = adopt_all hits initial in
    let new = firsts (λ k. false) hits in
    let kept =
      All-imp new (λ h (_, first). initial-survivors (parent_of h) hits ∙ first)
        (firsts-first_of hits (λ k. false)) in
    rw (initial-order hits) (
      collapsed-map f new kept
      ∙ ap returned (
          map-cong _ (representative hits) new
            (λ h. ap (λ n. with_siblings n h) (initial-dropped (parent_of h) hits))))
