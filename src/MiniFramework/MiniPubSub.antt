-- ===== src/MiniFramework/MiniPubSub.antt =====
-- mini_pubsub.py: MiniPubSub. A queue is known by an id, and `queues` are the queues that subscribers
-- hold. `asyncio.Queue` has no bound where its size is 0.
use assets_system.Prelude.Dict
use assets_system.Prelude.Dict.{Dict}
use assets_system.Prelude.{
  ℕ, ◌+◌, Bool, true, false, ◌&&◌, Option, none, some, List, [], ◌∷◌, ◌++◌, ltb, leb, if◌then◌else◌,
  ◌==◌, length, ℕ_discrete,
}
pub mod Delivery
mod Tests

pub record MiniPubSub (K M : Type 0) : Type 0 where
  pub max_queue_size : ℕ
  pub subscribers : Dict K (List ℕ)
  pub queues : Dict ℕ (List M)
  pub next_queue : ℕ

-- `queue.full()`
unfoldable pub is_full : {M : Type 0} → ℕ → List M → Bool
is_full max_queue_size queue = ltb 0 max_queue_size && leb max_queue_size (length queue)

-- `queue.put_nowait(message)`, where a full queue drops it
unfoldable pub put : {M : Type 0} → ℕ → M → List M → List M
unfolding is_full
put max_queue_size message queue =
    if is_full max_queue_size queue then queue else queue ++ message ∷ []

unfoldable pub ids_or_empty : Option (List ℕ) → List ℕ
ids_or_empty none = []
ids_or_empty (some ids) = ids

module _ {M : Type 0} where
  unfoldable pub put_to : ℕ → M → ℕ → Dict ℕ (List M) → Dict ℕ (List M)
  unfolding put
  put_to max_queue_size message id queues = elim (Dict.get ℕ_discrete id queues) [
    | none ↦ queues
    | some queue ↦ Dict.set ℕ_discrete id (put max_queue_size message queue) queues
  ]

  unfoldable pub put_all : ℕ → M → List ℕ → Dict ℕ (List M) → Dict ℕ (List M)
  unfolding put_to
  put_all max_queue_size message [] queues = queues
  put_all max_queue_size message (id ∷ ids) queues =
      put_all max_queue_size message ids (put_to max_queue_size message id queues)

  -- A subscriber takes the first message of its queue.
  unfoldable pub take : ℕ → Dict ℕ (List M) → Dict ℕ (List M)
  take id queues = elim (Dict.get ℕ_discrete id queues) [
    | none ↦ queues
    | some [] ↦ queues
    | some (m ∷ queue) ↦ Dict.set ℕ_discrete id queue queues
  ]

unfoldable pub without : ℕ → List ℕ → List ℕ
without id [] = []
without id (x ∷ ids) = let rest = without id ids in if x == id then rest else x ∷ rest

module _ {K M : Type 0} (dec : Discrete K) where
  unfoldable pub init : ℕ → MiniPubSub K M
  init max_queue_size = record {
    max_queue_size = max_queue_size;
    subscribers = [];
    queues = [];
    next_queue = 0;
  }

  unfoldable pub subscribe : K → MiniPubSub K M → ℕ × MiniPubSub K M
  unfolding ids_or_empty
  subscribe topic p =
      let queue = p.next_queue in
      (
        queue,
        record p {
          subscribers =
              Dict.set dec topic (ids_or_empty (Dict.get dec topic p.subscribers) ++ queue ∷ [])
                p.subscribers;
          queues = Dict.set ℕ_discrete queue [] p.queues;
          next_queue = p.next_queue + 1;
        },
      )

  unfoldable pub publish : K → M → MiniPubSub K M → MiniPubSub K M
  unfolding put_all ids_or_empty
  publish topic message p = record p {
    queues =
        put_all p.max_queue_size message (ids_or_empty (Dict.get dec topic p.subscribers)) p.queues;
  }

  unfoldable pub unsubscribe : K → ℕ → MiniPubSub K M → MiniPubSub K M
  unfolding without
  unsubscribe topic queue p = elim (Dict.get dec topic p.subscribers) [
    | none ↦ p
    | some ids ↦ record p { subscribers = Dict.set dec topic (without queue ids) p.subscribers }
  ]

  unfoldable pub close : MiniPubSub K M → MiniPubSub K M
  close p = record p { subscribers = [] }

-- The calls of the broker and of its subscribers.
pub data Call (K M : Type 0) : Type 0 where
  subscribes : K → Call K M
  publishes : K → M → Call K M
  unsubscribes : K → ℕ → Call K M
  takes : ℕ → Call K M
  closes : Call K M

module _ {K M : Type 0} (dec : Discrete K) where
  unfoldable pub call : Call K M → MiniPubSub K M → MiniPubSub K M
  unfolding subscribe publish unsubscribe take close
  call (subscribes topic) p = (subscribe dec topic p).1
  call (publishes topic message) p = publish dec topic message p
  call (unsubscribes topic queue) p = unsubscribe dec topic queue p
  call (takes id) p = record p { queues = take id p.queues }
  call closes p = close dec p

  unfoldable pub calls : List (Call K M) → MiniPubSub K M → MiniPubSub K M
  unfolding call
  calls [] p = p
  calls (c ∷ cs) p = calls cs (call c p)
