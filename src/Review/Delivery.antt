-- ===== src/Review/Delivery.antt =====
-- What the subscribers of the review events get.
use general_agent_framework.Prelude.{
  ℕ, zero, suc, ◌-◌, ◌≤◌, ◌<◌, ◌≡◌, refl, none, some, List, [], ◌∷◌, ◌++◌, arith, length,
  length-append, take, All, true, false, Bool-cases, inl, inr, ◌∙◌,
}
use mathlib.Core.List.{append-nil, append_assoc}
use general_agent_framework.Review.Broker.{
  ReviewEvent, Queue, ReviewEventBroker, offer, offer_all, publish, find_queue, is_full,
}

-- several publications, in order
unfoldable pub publish_all : List ReviewEvent → ReviewEventBroker → ReviewEventBroker
publish_all [] b = b
publish_all (e ∷ es) b = publish_all es (publish e b)

-- the events that fit into a queue of the size, after those that wait
abbrev pub accepted : ℕ → List ReviewEvent → List ReviewEvent → List ReviewEvent
accepted size waiting es = waiting ++ take (size - length waiting) es

find_queue-offer_all :
    (name size : ℕ) (e : ReviewEvent) (qs : List Queue)
    → find_queue name (offer_all size e qs)
      ≡ elim (find_queue name qs) [ none ↦ none | some q ↦ some (offer size e q) ]
unfolding find_queue offer_all offer
find_queue-offer_all name size e [] = refl
find_queue-offer_all name size e (q ∷ qs) = ground (arith, find_queue-offer_all name size e qs)

full_room : (size : ℕ) (q : Queue) → is_full size q ≡ true → size - length q.events ≡ 0
unfolding is_full
full_room size q h = ground arith

not_full_room : (size : ℕ) (q : Queue) → 0 < size → is_full size q ≡ false → length q.events < size
unfolding is_full
not_full_room size q pos h = ground arith

accepted-cons :
    (size : ℕ) (e : ReviewEvent) (es : List ReviewEvent) (q : Queue)
    → 0 < size
    → accepted size (offer size e q).events es ≡ accepted size q.events (e ∷ es)
unfolding offer
accepted-cons size e es q pos = elim (Bool-cases (is_full size q)) [
  | inl full ↦ rw (full, full_room size q full) refl
  | inr room ↦
      rw room (step (size - length q.events - 1) (not_full_room size q pos room) (omega arith))
]
  where
    step :
        (k : ℕ)
        → length q.events < size
        → k ≡ size - length q.events - 1
        → accepted size (q.events ++ e ∷ []) es ≡ accepted size q.events (e ∷ es)
    step k lt d =
        let before : size - length q.events ≡ suc k = omega arith in
        let after : size - length (q.events ++ e ∷ []) ≡ k =
          omega (arith, length-append q.events (e ∷ [])) in
        rw (after, before) (append_assoc q.events (e ∷ []) (take k es))

take-nil : (n : ℕ) → ◌≡◌ {A = List ReviewEvent} (take n []) []
take-nil zero = refl
take-nil (suc n) = refl

offer-name : (size : ℕ) (e : ReviewEvent) (q : Queue) → (offer size e q).name ≡ q.name
unfolding offer
offer-name size e q = ground arith

-- A subscriber whose queue is bounded gets, of the events published while it does not read, exactly
-- those that fit, in order: the first ones up to the bound. No later one is put in, and no other
-- subscriber matters.
pub publish_all-accepted :
    (name : ℕ) (es : List ReviewEvent) (b : ReviewEventBroker) (q : Queue)
    → 0 < b.max_queue_size
    → find_queue name b.queues ≡ some q
    → find_queue name (publish_all es b).queues
      ≡ some (record q { events = accepted b.max_queue_size q.events es })
unfolding publish_all publish
publish_all-accepted name [] b q pos h =
    rw (take-nil (b.max_queue_size - length q.events), append-nil) h
publish_all-accepted name (e ∷ es) b q pos h =
    let size = b.max_queue_size in
    let found : find_queue name (publish e b).queues ≡ some (offer size e q) =
      ground (arith, find_queue-offer_all name size e b.queues) in
    publish_all-accepted name es (publish e b) (offer size e q) pos found
    ∙ rw (offer-name size e q, accepted-cons size e es q pos)

abbrev pub IsBounded : ℕ → Queue → Type 0
IsBounded size q = length q.events ≤ size

offer-IsBounded :
    (size : ℕ) (e : ReviewEvent) (q : Queue)
    → 0 < size
    → IsBounded size q
    → IsBounded size (offer size e q)
unfolding offer
offer-IsBounded size e q pos h = grind (arith, not_full_room, length-append)

-- A publication keeps every bounded queue within its bound.
pub publish-IsBounded :
    (e : ReviewEvent) (b : ReviewEventBroker)
    → 0 < b.max_queue_size
    → All (IsBounded b.max_queue_size) b.queues
    → All (IsBounded b.max_queue_size) (publish e b).queues
unfolding publish
publish-IsBounded e b pos h = go b.queues h
  where
    go :
        (qs : List Queue)
        → All (IsBounded b.max_queue_size) qs
        → All (IsBounded b.max_queue_size) (offer_all b.max_queue_size e qs)
    go [] h = tt
    go (q ∷ qs) h = (offer-IsBounded b.max_queue_size e q pos h.0, go qs h.1)
