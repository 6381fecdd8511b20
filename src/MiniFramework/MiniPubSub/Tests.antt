-- ===== src/MiniFramework/MiniPubSub/Tests.antt =====
-- Publications to a queue of size two (mini_pubsub.py), and the theorems at them.
use assets_system.Prelude.Dict
use assets_system.Prelude.{ℕ, ◌≡◌, refl, some, List, [], ◌∷◌, ℕ_discrete}
use assets_system.MiniFramework.MiniPubSub.{
  MiniPubSub, is_full, put, ids_or_empty, put_to, put_all, take, without, init, subscribe, publish,
  unsubscribe, close, Call, subscribes, publishes, unsubscribes, takes, call, calls,
}
use assets_system.MiniFramework.MiniPubSub.Delivery.{publish-put}

program : Unit {0}
unfolding is_full put ids_or_empty put_to put_all take without init subscribe publish unsubscribe
    close call calls Dict.get Dict.set ℕ_discrete
program = tt

-- Two subscribers of a topic, three messages, and one that is taken; the second subscriber leaves.
abbrev cs : List (Call ℕ ℕ)
cs =
    subscribes 7
    ∷ subscribes 7
    ∷ publishes 7 10
    ∷ takes 0
    ∷ publishes 7 20
    ∷ unsubscribes 7 1
    ∷ publishes 7 30
    ∷ publishes 7 40
    ∷ []

abbrev broker : MiniPubSub ℕ ℕ
broker = calls ℕ_discrete cs (init ℕ_discrete 2)

broker_queues : broker.queues ≡ (0, 20 ∷ 30 ∷ []) ∷ (1, 10 ∷ 20 ∷ []) ∷ []
unfolding program
broker_queues = refl

-- A message more is taken, so that the queue has room for one.
abbrev draining : MiniPubSub ℕ ℕ
draining = call ℕ_discrete (takes 0) broker

publish-put_example :
    Dict.get ℕ_discrete 0 (publish ℕ_discrete 7 50 draining).queues ≡ some (30 ∷ 50 ∷ [])
unfolding program
publish-put_example = publish-put ℕ_discrete 7 50 draining 0 (30 ∷ []) refl
