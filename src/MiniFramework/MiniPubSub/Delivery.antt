-- ===== src/MiniFramework/MiniPubSub/Delivery.antt =====
-- The queues of mini_pubsub.py: their size, and what a publication does to them.
use mathlib.Core.List.{append-nil, append_assoc}
use mathlib.Core.Path.{subst}
use assets_system.Prelude.Dict
use assets_system.Prelude.Dict.{Dict}
use assets_system.Prelude.Keys
use assets_system.Prelude.{
  ℕ, zero, suc, ◌+◌, ◌-◌, ◌≤◌, ◌<◌, ◌≡◌, ◌≢◌, refl, ap, sym, ◌∙◌, inl, inr, min, ltb, leb, ◌&&◌,
  true, false, ◌++◌, Bool-cases, Option, none, some, List, [], ◌∷◌, if◌then◌else◌, ◌==◌, length,
  length-append, All, ℕ_discrete, arith, Option-cases,
}
use assets_system.MiniFramework.MiniPubSub.{
  MiniPubSub, is_full, put, ids_or_empty, put_to, put_all, take, init, subscribe, publish,
  unsubscribe, close, Call, subscribes, publishes, unsubscribes, takes, closes, call, calls,
}

-- How often the queue is subscribed.
abbrev pub times : ℕ → List ℕ → ℕ
times id [] = 0
times id (x ∷ ids) = (if x == id then 1 else 0) + times id ids

abbrev pub replicate : {M : Type 0} → ℕ → M → List M
replicate zero message = []
replicate (suc n) message = message ∷ replicate n message

-- How many of so many copies a queue of the length takes.
abbrev pub copies : ℕ → ℕ → ℕ → ℕ
copies max_queue_size n size = if max_queue_size == 0 then n else min n (max_queue_size - size)

copies-zero : (max_queue_size size : ℕ) → copies max_queue_size 0 size ≡ 0
copies-zero max_queue_size size = ground arith

copies-full :
    (max_queue_size n size : ℕ)
    → ltb 0 max_queue_size && leb max_queue_size size ≡ true
    → copies max_queue_size (suc n) size ≡ copies max_queue_size n size
copies-full max_queue_size n size h = ground (arith, h)

copies-room :
    (max_queue_size n size : ℕ)
    → ltb 0 max_queue_size && leb max_queue_size size ≡ false
    → copies max_queue_size (suc n) size ≡ suc (copies max_queue_size n (size + 1))
copies-room max_queue_size n size h = ground (arith, h)

module _ {M : Type 0} where
  abbrev pub Fits : ℕ → ℕ × List M → Type 0
  Fits max_queue_size entry = length entry.1 ≤ max_queue_size

  length-put :
      (max_queue_size : ℕ) (message : M) (queue : List M)
      → 0 < max_queue_size
      → length queue ≤ max_queue_size
      → length (put max_queue_size message queue) ≤ max_queue_size
  unfolding put is_full
  length-put max_queue_size message queue l h =
      ground (arith, l, h, length-append queue (message ∷ []))

  put_to-Fits :
      (max_queue_size : ℕ) (message : M) (id : ℕ) (queues : Dict ℕ (List M))
      → 0 < max_queue_size
      → All (Fits max_queue_size) queues
      → All (Fits max_queue_size) (put_to max_queue_size message id queues)
  unfolding put_to
  put_to-Fits max_queue_size message id queues l h =
      elim (Option-cases (Dict.get ℕ_discrete id queues)) [
        | inl e ↦ rw (e, put_to) h
        | inr (queue, e) ↦
            rw (e, put_to)
              (Dict.All-set ℕ_discrete (Fits max_queue_size) id (put max_queue_size message queue)
                queues
                (length-put max_queue_size message queue l
                  (Keys.get-All ℕ_discrete (λ k q. length q ≤ max_queue_size) id queue queues h e))
                h)
      ]

  put_all-Fits :
      (max_queue_size : ℕ) (message : M) (ids : List ℕ) (queues : Dict ℕ (List M))
      → 0 < max_queue_size
      → All (Fits max_queue_size) queues
      → All (Fits max_queue_size) (put_all max_queue_size message ids queues)
  unfolding put_all
  put_all-Fits max_queue_size message [] queues l h = h
  put_all-Fits max_queue_size message (id ∷ ids) queues l h =
      put_all-Fits max_queue_size message ids (put_to max_queue_size message id queues) l
        (put_to-Fits max_queue_size message id queues l h)

  take-Fits :
      (max_queue_size id : ℕ) (found : Option (List M)) (queues : Dict ℕ (List M))
      → Dict.get ℕ_discrete id queues ≡ found
      → All (Fits max_queue_size) queues
      → All (Fits max_queue_size) (take id queues)
  unfolding take
  take-Fits max_queue_size id none queues e h = rw (e, take) h
  take-Fits max_queue_size id (some []) queues e h = rw (e, take) h
  take-Fits max_queue_size id (some (m ∷ queue)) queues e h =
      let few =
        Keys.get-All ℕ_discrete (λ k q. length q ≤ max_queue_size) id (m ∷ queue) queues h e in
      rw (e, take)
        (Dict.All-set ℕ_discrete (Fits max_queue_size) id queue queues (omega (arith, few)) h)

  get-put_to :
      (max_queue_size : ℕ) (message : M) (id other : ℕ) (queues : Dict ℕ (List M))
      → id ≢ other
      → Dict.get ℕ_discrete other (put_to max_queue_size message id queues)
        ≡ Dict.get ℕ_discrete other queues
  unfolding put_to
  get-put_to max_queue_size message id other queues h =
      elim (Option-cases (Dict.get ℕ_discrete id queues)) [
        | inl e ↦ rw (e, put_to) refl
        | inr (queue, e) ↦
            rw (e, put_to)
              (Dict.get-set_ne ℕ_discrete id other (put max_queue_size message queue) queues h)
      ]

  get-put_to_self :
      (max_queue_size : ℕ) (message : M) (id : ℕ) (queue : List M) (queues : Dict ℕ (List M))
      → Dict.get ℕ_discrete id queues ≡ some queue
      → Dict.get ℕ_discrete id (put_to max_queue_size message id queues)
        ≡ some (put max_queue_size message queue)
  unfolding put_to
  get-put_to_self max_queue_size message id queue queues e =
      rw (e, put_to) (Dict.get-set_self ℕ_discrete id (put max_queue_size message queue) queues)

  replicate-append :
      (n : ℕ) (message : M) (queue : List M)
      → (queue ++ message ∷ []) ++ replicate n message ≡ queue ++ replicate (suc n) message
  replicate-append n message queue = append_assoc queue (message ∷ []) (replicate n message)

  put-replicate :
      (max_queue_size n : ℕ) (message : M) (queue : List M)
      → put max_queue_size message queue
          ++ replicate (copies max_queue_size n (length (put max_queue_size message queue))) message
        ≡ queue ++ replicate (copies max_queue_size (suc n) (length queue)) message
  unfolding put
  put-replicate max_queue_size n message queue = elim (Bool-cases (is_full max_queue_size queue)) [
    | inl full ↦
        let same = copies-full max_queue_size n (length queue) (unfold is_full in full) in
        rw (full, same) refl
    | inr room ↦
        let grown = length-append queue (message ∷ []) in
        let more = copies-room max_queue_size n (length queue) (unfold is_full in room) in
        rw (room, grown, more)
          (replicate-append (copies max_queue_size n (length queue + 1)) message queue)
  ]

  get-put_all :
      (max_queue_size : ℕ) (message : M) (id : ℕ) (queue : List M) (ids : List ℕ)
      (queues : Dict ℕ (List M))
      → Dict.get ℕ_discrete id queues ≡ some queue
      → Dict.get ℕ_discrete id (put_all max_queue_size message ids queues)
        ≡ some (queue ++ replicate (copies max_queue_size (times id ids) (length queue)) message)
  unfolding put_all
  get-put_all max_queue_size message id queue [] queues e =
      rw (copies-zero max_queue_size (length queue)) (rw append-nil e)
  get-put_all max_queue_size message id queue (x ∷ ids) queues e = elim (ℕ_discrete x id) [
    | yes p ↦
        let count : times id (x ∷ ids) ≡ suc (times id ids) = ground (arith, p) in
        let first =
          subst
            (λ y.
              Dict.get ℕ_discrete id (put_to max_queue_size message y queues)
              ≡ some (put max_queue_size message queue))
            (sym p) (get-put_to_self max_queue_size message id queue queues e) in
        rw count (
          get-put_all max_queue_size message id (put max_queue_size message queue) ids
            (put_to max_queue_size message x queues) first
          ∙ ap some (put-replicate max_queue_size (times id ids) message queue))
    | no p ↦
        let count : times id (x ∷ ids) ≡ times id ids = ground (arith, p) in
        rw count (
          get-put_all max_queue_size message id queue ids (put_to max_queue_size message x queues)
            (get-put_to max_queue_size message x id queues p ∙ e))
  ]

module _ {K M : Type 0} (dec : Discrete K) where
  -- A publication leaves the messages of a queue in their places and puts its own behind them, once
  -- for each time that the queue is subscribed to the topic, as far as there is room: up to the
  -- maximal size, or without a limit where that is 0.
  pub publish-put :
      (topic : K) (message : M) (p : MiniPubSub K M) (id : ℕ) (queue : List M)
      → Dict.get ℕ_discrete id p.queues ≡ some queue
      → Dict.get ℕ_discrete id (publish dec topic message p).queues
        ≡ some (
            queue
            ++ replicate
                (copies p.max_queue_size
                  (times id (ids_or_empty (Dict.get dec topic p.subscribers)))
                  (length queue))
                message)
  unfolding publish
  publish-put topic message p id queue e =
      get-put_all p.max_queue_size message id queue
        (ids_or_empty (Dict.get dec topic p.subscribers)) p.queues e

  -- the queues fit, and the size is the one of the start
  abbrev Bounded : ℕ → MiniPubSub K M → Type 0
  Bounded max_queue_size p =
      All (Fits max_queue_size) p.queues × (p.max_queue_size ≡ max_queue_size)

  call-Bounded :
      (max_queue_size : ℕ) (c : Call K M) (p : MiniPubSub K M)
      → 0 < max_queue_size
      → Bounded max_queue_size p
      → Bounded max_queue_size (call dec c p)
  unfolding call subscribe publish unsubscribe close
  call-Bounded max_queue_size (subscribes topic) p l h = (
    Dict.All-set ℕ_discrete (Fits max_queue_size) p.next_queue [] p.queues (omega arith) h.0,
    h.1,
  )
  call-Bounded max_queue_size (publishes topic message) p l h = (
    subst
        (λ m.
          All (Fits max_queue_size)
            (put_all m message (ids_or_empty (Dict.get dec topic p.subscribers)) p.queues))
        (sym h.1)
        (put_all-Fits max_queue_size message (ids_or_empty (Dict.get dec topic p.subscribers))
          p.queues l h.0),
    h.1,
  )
  call-Bounded max_queue_size (unsubscribes topic queue) p l h =
      elim (Option-cases (Dict.get dec topic p.subscribers)) [
        | inl e ↦ rw (e, unsubscribe) h
        | inr (ids, e) ↦ rw (e, unsubscribe) h
      ]
  call-Bounded max_queue_size (takes id) p l h =
      (take-Fits max_queue_size id (Dict.get ℕ_discrete id p.queues) p.queues refl h.0, h.1)
  call-Bounded max_queue_size closes p l h = h

  calls-Bounded :
      (max_queue_size : ℕ) (cs : List (Call K M)) (p : MiniPubSub K M)
      → 0 < max_queue_size
      → Bounded max_queue_size p
      → Bounded max_queue_size (calls dec cs p)
  unfolding calls
  calls-Bounded max_queue_size [] p l h = h
  calls-Bounded max_queue_size (c ∷ cs) p l h =
      calls-Bounded max_queue_size cs (call dec c p) l (call-Bounded max_queue_size c p l h)

  -- With a positive size no queue is ever longer than it, whatever calls are made.
  calls-Fits :
      (max_queue_size : ℕ) (cs : List (Call K M))
      → 0 < max_queue_size
      → All (Fits max_queue_size) (calls dec cs (init dec max_queue_size)).queues
  unfolding init
  calls-Fits max_queue_size cs l =
      (calls-Bounded max_queue_size cs (init dec max_queue_size) l (tt, refl)).0
