-- ===== src/Review/Broker.antt =====
-- The in-process event bus: `ReviewEventBroker` of app/services/human_review_service.py. A queue is
-- an identity and its waiting events, oldest first. The events' times are left out.
use general_agent_framework.Prelude.{
  ℕ, String, ◌+◌, Bool, ◌&&◌, Option, none, some, List, [], ◌∷◌, ◌++◌, ltb, leb, ◌==◌, length,
  if◌then◌else◌,
}

pub data ReviewEvent : Type 0 where
  created decided : (review_id request_id status : String) → ReviewEvent

pub record Queue : Type 0 where
  pub name : ℕ
  pub events : List ReviewEvent

pub record ReviewEventBroker : Type 0 where
  pub queues : List Queue
  pub max_queue_size : ℕ
  pub next_name : ℕ

-- The new queue's name is what the subscriber holds.
unfoldable pub subscribe : ReviewEventBroker → ℕ × ReviewEventBroker
subscribe b = (
  b.next_name,
  record b {
    queues = b.queues ++ record { name = b.next_name; events = [] } ∷ [];
    next_name = b.next_name + 1;
  },
)

-- `self._queues.discard(queue)`
unfoldable pub discard : ℕ → List Queue → List Queue
discard name [] = []
discard name (q ∷ qs) = let rest = discard name qs in if q.name == name then rest else q ∷ rest

unfoldable pub unsubscribe : ℕ → ReviewEventBroker → ReviewEventBroker
unfolding discard
unsubscribe name b = record b { queues = discard name b.queues }

-- `asyncio.Queue.full`: a size of 0 means no bound
unfoldable pub is_full : ℕ → Queue → Bool
is_full size q = ltb 0 size && leb size (length q.events)

-- `put_nowait`, and the handler of `QueueFull`
unfoldable pub offer : ℕ → ReviewEvent → Queue → Queue
unfolding is_full
offer size e q = if is_full size q then q else record q { events = q.events ++ e ∷ [] }

unfoldable pub offer_all : ℕ → ReviewEvent → List Queue → List Queue
unfolding offer
offer_all size e [] = []
offer_all size e (q ∷ qs) = offer size e q ∷ offer_all size e qs

unfoldable pub publish : ReviewEvent → ReviewEventBroker → ReviewEventBroker
unfolding offer_all
publish e b = record b { queues = offer_all b.max_queue_size e b.queues }

unfoldable pub find_queue : ℕ → List Queue → Option Queue
find_queue name [] = none
find_queue name (q ∷ qs) = if q.name == name then some q else find_queue name qs
