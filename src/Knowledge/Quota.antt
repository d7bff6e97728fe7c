-- ===== src/Knowledge/Quota.antt =====
-- The quota per document: what `cap_per_document` keeps, what it backfills and what is left over.
use general_agent_framework.Prelude.{
  ℕ, zero, suc, subst, String, ◌+◌, ◌-◌, ◌≤◌, ◌<◌, min, ◌≡◌, refl, sym, ◌∙◌, ap, ◌⊎◌, inl, inr,
  true, false, List, [], ◌∷◌, ◌++◌, leb, length, take, drop, All, All-append, str_eq, eq_iff, arith,
  Bool-cases, length-append, length-take, if◌then◌else◌,
}
use mathlib.Core.List.{append-nil, append_assoc}
use general_agent_framework.Prelude.Dict.{Dict, get, put, get-put}
use general_agent_framework.Outcome.{returned}
use general_agent_framework.Knowledge.{KnowledgeHit}
use general_agent_framework.Knowledge.Diversity.{
  per, group_of, Picks, keep_hit, skip_hit, has_room, full, ended, walk, capped, cap_per_document,
}

-- `hits` is an interleaving of the two lists: each hit stands in one of them, in the order of `hits`.
pub data Splits : List KnowledgeHit → List KnowledgeHit → List KnowledgeHit → Type 0 where
  none_left : Splits [] [] []
  to_left :
      {xs ys hits : List KnowledgeHit} (h : KnowledgeHit)
      → Splits xs ys hits
      → Splits (h ∷ xs) ys (h ∷ hits)
  to_right :
      {xs ys hits : List KnowledgeHit} (h : KnowledgeHit)
      → Splits xs ys hits
      → Splits xs (h ∷ ys) (h ∷ hits)

snoc_left :
    {xs ys hits : List KnowledgeHit} (h : KnowledgeHit)
    → Splits xs ys hits
    → Splits (xs ++ h ∷ []) ys (hits ++ h ∷ [])
snoc_left h none_left = to_left h none_left
snoc_left h (to_left x s) = to_left x (snoc_left h s)
snoc_left h (to_right x s) = to_right x (snoc_left h s)

snoc_right :
    {xs ys hits : List KnowledgeHit} (h : KnowledgeHit)
    → Splits xs ys hits
    → Splits xs (ys ++ h ∷ []) (hits ++ h ∷ [])
snoc_right h none_left = to_right h none_left
snoc_right h (to_left x s) = to_left x (snoc_right h s)
snoc_right h (to_right x s) = to_right x (snoc_right h s)

length-Splits :
    {xs ys hits : List KnowledgeHit} → Splits xs ys hits → length hits ≡ length xs + length ys
length-Splits none_left = refl
length-Splits (to_left h s) = omega (arith, length-Splits s)
length-Splits (to_right h s) = omega (arith, length-Splits s)

-- How many of the hits are of the document.
unfoldable pub share : String → List KnowledgeHit → ℕ
share k [] = 0
share k (h ∷ hs) = let rest = share k hs in if str_eq (group_of h) k then suc rest else rest

share-snoc :
    (k : String) (hs : List KnowledgeHit) (h : KnowledgeHit)
    → share k (hs ++ h ∷ []) ≡ (if str_eq (group_of h) k then share k hs + 1 else share k hs)
unfolding share
share-snoc k [] h = ground arith
share-snoc k (x ∷ hs) h = ground (arith, share-snoc k hs h)

per-put :
    (k j : String) (n : ℕ) (d : Dict ℕ) → per j (put k n d) ≡ (if str_eq k j then n else per j d)
unfolding per
per-put k j n d = ground (arith, get-put k j n d)

-- What holds of the picks after the hits `done`.
record IsSound (quota : ℕ) (done : List KnowledgeHit) (p : Picks) : Type 0 where
  split : Splits p.kept p.skipped done
  counted : (k : String) → per k p.per_source ≡ share k p.kept
  bounded : (k : String) → share k p.kept ≤ quota
  exhausted : All (λ h. share (group_of h) p.kept ≡ quota) p.skipped

All-imp :
    {P Q : KnowledgeHit → Type 0} (hs : List KnowledgeHit)
    → ((h : KnowledgeHit) → P h → Q h)
    → All P hs
    → All Q hs
All-imp [] f a = tt
All-imp (h ∷ hs) f a = (f h a.0, All-imp hs f a.1)

keep-IsSound :
    (quota : ℕ) (done : List KnowledgeHit) (h : KnowledgeHit) (p : Picks)
    → IsSound quota done p
    → has_room quota h p ≡ true
    → IsSound quota (done ++ h ∷ []) (keep_hit h p)
unfolding keep_hit has_room
keep-IsSound quota done h p v room = record {
  split = snoc_left h v.split;
  counted = λ k. ground (
    arith,
    per-put (group_of h) k (per (group_of h) p.per_source + 1) p.per_source,
    share-snoc k p.kept h,
    v.counted k,
    v.counted (group_of h),
    eq_iff (group_of h) k,
  );
  bounded = λ k.
      ground
        (arith, share-snoc k p.kept h, v.bounded k, v.counted (group_of h), eq_iff (group_of h) k);
  exhausted =
      All-imp p.skipped
        (λ x e. ground (
          arith,
          share-snoc (group_of x) p.kept h,
          v.counted (group_of h),
          eq_iff (group_of h) (group_of x),
        ))
        v.exhausted;
}

skip-IsSound :
    (quota : ℕ) (done : List KnowledgeHit) (h : KnowledgeHit) (p : Picks)
    → IsSound quota done p
    → has_room quota h p ≡ false
    → IsSound quota (done ++ h ∷ []) (skip_hit h p)
unfolding skip_hit has_room
skip-IsSound quota done h p v room = record {
  split = snoc_right h v.split;
  counted = v.counted;
  bounded = v.bounded;
  exhausted =
      All-append _ p.skipped (h ∷ []) v.exhausted
        (ground (arith, v.counted (group_of h), v.bounded (group_of h)), tt);
}

-- What a result of the quota is, for the hits in rank order. The hits `considered` are those up to
-- the one that fills the pool, or all of them; `picked` are the ones within the quota, and
-- `rejected` the others.
pub record IsCapped (quota limit overflow_limit : ℕ) (hits : List KnowledgeHit)
    (result : List KnowledgeHit × List KnowledgeHit) : Type 0 where
  pub considered : List KnowledgeHit
  pub rest : List KnowledgeHit
  pub picked : List KnowledgeHit
  pub rejected : List KnowledgeHit
  pub in_order : considered ++ rest ≡ hits
  pub split : Splits picked rejected considered
  pub bounded : (k : String) → share k picked ≤ quota
  pub exhausted : All (λ h. share (group_of h) picked ≡ quota) rejected
  pub stops : (rest ≡ []) ⊎ (length picked ≡ limit)
  pub within : length picked ≤ limit
  pub kept : result.0 ≡ picked ++ take (limit - length picked) rejected
  pub overflow : result.1 ≡ take overflow_limit (drop (limit - length picked) rejected)

drop-length-take : (n : ℕ) (xs : List KnowledgeHit) → drop (length (take n xs)) xs ≡ drop n xs
drop-length-take zero xs = refl
drop-length-take (suc n) [] = refl
drop-length-take (suc n) (x ∷ xs) = drop-length-take n xs

full-IsCapped :
    (quota limit overflow_limit : ℕ) (done rest : List KnowledgeHit) (p : Picks)
    → IsSound quota done p
    → length p.kept ≡ limit
    → IsCapped quota limit overflow_limit (done ++ rest) (capped limit overflow_limit (full p))
unfolding capped
full-IsCapped quota limit overflow_limit done rest p v e =
    let spare : limit - length p.kept ≡ 0 = omega arith in
    record {
      considered = done;
      rest = rest;
      picked = p.kept;
      rejected = p.skipped;
      in_order = refl;
      split = v.split;
      bounded = v.bounded;
      exhausted = v.exhausted;
      stops = inr e;
      within = omega arith;
      kept = rw spare (sym (append-nil p.kept));
      overflow = rw spare refl;
    }

ended-IsCapped :
    (quota limit overflow_limit : ℕ) (done : List KnowledgeHit) (p : Picks)
    → IsSound quota done p
    → length p.kept < limit
    → IsCapped quota limit overflow_limit (done ++ []) (capped limit overflow_limit (ended p))
unfolding capped
ended-IsCapped quota limit overflow_limit done p v short = record {
  considered = done;
  rest = [];
  picked = p.kept;
  rejected = p.skipped;
  in_order = refl;
  split = v.split;
  bounded = v.bounded;
  exhausted = v.exhausted;
  stops = inl refl;
  within = omega arith;
  kept = refl;
  overflow = ap (take overflow_limit) (drop-length-take (limit - length p.kept) p.skipped);
}

length-keep : (h : KnowledgeHit) (p : Picks) → length (keep_hit h p).kept ≡ length p.kept + 1
unfolding keep_hit
length-keep h p = length-append p.kept (h ∷ [])

length-skip : (h : KnowledgeHit) (p : Picks) → length (skip_hit h p).kept ≡ length p.kept
unfolding skip_hit
length-skip h p = refl

walk-IsCapped :
    (quota limit overflow_limit : ℕ) (hits done : List KnowledgeHit) (p : Picks)
    → IsSound quota done p
    → length p.kept < limit
    → IsCapped quota limit overflow_limit
        (done ++ hits)
        (capped limit overflow_limit (walk quota limit hits p))
unfolding walk
walk-IsCapped quota limit over [] done p v short = ended-IsCapped quota limit over done p v short
walk-IsCapped quota limit over (h ∷ hits) done p v short =
    subst (λ all. IsCapped quota limit over all (capped limit over (walk quota limit (h ∷ hits) p)))
      (append_assoc done (h ∷ []) hits)
      (elim (Bool-cases (has_room quota h p)) [
        | inl room ↦
            let kept = keep-IsSound quota done h p v room in
            elim (Bool-cases (leb limit (length (keep_hit h p).kept))) [
              | inl enough ↦
                  rw (room, enough)
                    (full-IsCapped quota limit over (done ++ h ∷ []) hits (keep_hit h p) kept
                      (ground (arith, length-keep h p)))
              | inr more ↦
                  rw (room, more)
                    (walk-IsCapped quota limit over hits (done ++ h ∷ []) (keep_hit h p) kept
                      (ground (arith, length-keep h p)))
            ]
        | inr closed ↦ rw closed (
            walk-IsCapped quota limit over hits (done ++ h ∷ []) (skip_hit h p)
              (skip-IsSound quota done h p v closed) (ground (arith, length-skip h p)))
      ])

empty-IsSound : (quota : ℕ) → IsSound quota [] (record { kept = []; skipped = []; per_source = [] })
unfolding share per get
empty-IsSound quota = record {
  split = none_left;
  counted = λ k. refl;
  bounded = λ k. omega arith;
  exhausted = tt;
}

-- With a quota and a limit of at least 1 the call returns a result of the quota: the hits that it
-- considers split, in rank order, into those picked, of which no document has more than the quota,
-- and those rejected, whose documents have all of it; it considers all hits, unless those picked
-- fill the pool; the pool is filled up from the rejected ones in rank order, and the next ones of
-- these, at most `overflow_limit`, are the overflow.
pub cap_per_document-IsCapped :
    (hits : List KnowledgeHit) (quota limit overflow_limit : ℕ)
    → 0 < quota
    → 0 < limit
    → (result : List KnowledgeHit × List KnowledgeHit) × (cap_per_document hits quota limit
          overflow_limit
        ≡ returned result)
      × IsCapped quota limit overflow_limit hits result
unfolding cap_per_document
cap_per_document-IsCapped hits quota limit over q l = (
  capped limit over (walk quota limit hits (record { kept = []; skipped = []; per_source = [] })),
  ground arith,
  walk-IsCapped quota limit over hits [] _ (empty-IsSound quota) (omega arith),
)

IsCapped-length :
    (quota limit over : ℕ) (hits : List KnowledgeHit)
    (result : List KnowledgeHit × List KnowledgeHit)
    → IsCapped quota limit over hits result
    → length result.0 ≡ min limit (length hits)
IsCapped-length quota limit over hits result c =
    let total : length c.considered + length c.rest ≡ length hits =
      sym (length-append c.considered c.rest) ∙ ap length c.in_order in
    let count : length result.0
        ≡ length c.picked + min (limit - length c.picked) (length c.rejected) =
      ap length c.kept
      ∙ length-append c.picked _
      ∙ ap (λ n. length c.picked + n) (length-take (limit - length c.picked) c.rejected) in
    elim c.stops [
      | inl done ↦ omega (arith, total, count, length-Splits c.split, c.within, ap length done)
      | inr filled ↦ omega (arith, total, count, length-Splits c.split, filled)
    ]

-- The quota never returns fewer hits than plain truncation would: whatever the quota, the pool has
-- `limit` hits, or all of them where there are fewer.
pub length-cap_per_document :
    (hits kept overflow : List KnowledgeHit) (quota limit overflow_limit : ℕ)
    → cap_per_document hits quota limit overflow_limit ≡ returned (kept, overflow)
    → length kept ≡ min limit (length hits)
unfolding cap_per_document
length-cap_per_document hits kept overflow zero limit over h = ground arith
length-cap_per_document hits kept overflow (suc q) zero over h = ground arith
length-cap_per_document hits kept overflow (suc q) (suc l) over h =
    let (result, e, c) =
      cap_per_document-IsCapped hits (suc q) (suc l) over (omega arith) (omega arith) in
    let same : result ≡ (kept, overflow) = cc in
    sym (ap (λ r. length r.0) same) ∙ IsCapped-length (suc q) (suc l) over hits result c
