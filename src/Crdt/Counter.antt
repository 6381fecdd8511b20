-- ===== src/Crdt/Counter.antt =====
-- The grow-only counter as a join semilattice of counts (crdt.py, `GCounter`).
use mathlib.Core.Option
use assets_system.Prelude.Dict
use assets_system.Prelude.Dict.{Dict}
use assets_system.Prelude.{
  ℕ, ◌+◌, ◌≡◌, ◌∙◌, sym, refl, max, none, some, [], ◌∷◌, ite, if_pos, arith,
}
use assets_system.Crdt.{GCounter, init_counter, sum, value, increment, merge_items, merge}

module _ {K : Type 0} (dec : Discrete K) where
  -- `self.payload.get(node, 0)`
  abbrev pub count : Dict K ℕ → K → ℕ
  count payload node = Option.get_or (Dict.get dec node payload) 0

  -- The payload is a dict, and has an entry for the counter's own node.
  pub record IsValid (c : GCounter K) : Type 0 where
    pub distinct : Dict.Distinct dec c.payload
    pub own : (n : ℕ) × (Dict.get dec c.node_id c.payload ≡ some n)

  count-merge_items :
      (payload other : Dict K ℕ) (node : K)
      → Dict.Distinct dec other
      → count (merge_items dec payload other) node ≡ max (count payload node) (count other node)
  unfolding merge_items Dict.get
  count-merge_items payload [] node h = omega arith
  count-merge_items payload ((k, c) ∷ rest) node h =
      let m = max (count payload k) c in
      ground (
        arith,
        count-merge_items (Dict.set dec k m payload) rest node h.1,
        Dict.get-set dec k node m payload,
        h.0,
      )

  -- Merging takes the larger count at every node.
  count-merge :
      (a b : GCounter K) (node : K)
      → IsValid b
      → count (merge dec a b).payload node ≡ max (count a.payload node) (count b.payload node)
  unfolding merge
  count-merge a b node h = count-merge_items a.payload b.payload node h.distinct

  merge_items-Distinct :
      (payload other : Dict K ℕ)
      → Dict.Distinct dec payload
      → Dict.Distinct dec (merge_items dec payload other)
  unfolding merge_items
  merge_items-Distinct payload [] h = h
  merge_items-Distinct payload ((k, c) ∷ rest) h =
      let m = max (count payload k) c in
      merge_items-Distinct (Dict.set dec k m payload) rest (Dict.Distinct-set dec k m payload h)

  merge_items-has :
      (payload other : Dict K ℕ) (node : K)
      → (n : ℕ) × (Dict.get dec node payload ≡ some n)
      → (n : ℕ) × (Dict.get dec node (merge_items dec payload other) ≡ some n)
  unfolding merge_items
  merge_items-has payload [] node h = h
  merge_items-has payload ((k, c) ∷ rest) node (n, e) =
      let m = max (count payload k) c in
      merge_items-has (Dict.set dec k m payload) rest node (elim (dec k node) [
        | yes p ↦ (m, ground (arith, Dict.get-set dec k node m payload))
        | no p ↦ (n, ground (arith, Dict.get-set dec k node m payload))
      ])

  init_counter-IsValid : (node_id : K) → IsValid (init_counter node_id)
  unfolding init_counter Dict.get
  init_counter-IsValid node_id = record {
    distinct = (refl, tt);
    own = (0, if_pos (dec node_id node_id) refl _ _);
  }

  merge-IsValid : (a b : GCounter K) → IsValid a → IsValid (merge dec a b)
  unfolding merge
  merge-IsValid a b h = record {
    distinct = merge_items-Distinct a.payload b.payload h.distinct;
    own = merge_items-has a.payload b.payload a.node_id h.own;
  }

  -- the sum of a payload, entry by entry
  sum-remove :
      (k : K) (d : Dict K ℕ) → Dict.Distinct dec d → sum (Dict.remove dec k d) + count d k ≡ sum d
  unfolding sum Dict.remove Dict.get
  sum-remove k [] h = omega arith
  sum-remove k ((j, c) ∷ d) h = ground (arith, sum-remove k d h.1, h.0)

  count-cons_self : (j : K) (c : ℕ) (d : Dict K ℕ) → c ≡ count ((j, c) ∷ d) j
  unfolding Dict.get
  count-cons_self j c d = ground arith

  count-cons :
      (j : K) (c : ℕ) (d : Dict K ℕ) (node : K)
      → Dict.get dec j d ≡ none
      → count d node ≡ ite (dec j node) 0 (count ((j, c) ∷ d) node)
  unfolding Dict.get
  count-cons j c d node h = ground (arith, h)

  sum_zero : (d : Dict K ℕ) → Dict.Distinct dec d → ((node : K) → count d node ≡ 0) → sum d ≡ 0
  unfolding sum Dict.get
  sum_zero [] h z = refl
  sum_zero ((j, c) ∷ d) h z = omega (
    arith,
    count-cons_self j c d ∙ z j,
    sum_zero d h.1 (λ node. ground (arith, count-cons j c d node h.0, z node)),
  )

  count-nil : (node : K) → count [] node ≡ 0
  unfolding Dict.get
  count-nil node = refl

  sum-eq :
      (d e : Dict K ℕ)
      → Dict.Distinct dec d
      → Dict.Distinct dec e
      → ((node : K) → count d node ≡ count e node)
      → sum d ≡ sum e
  unfolding sum
  sum-eq [] e hd he same = sym (sum_zero e he (λ node. sym (same node) ∙ count-nil node))
  sum-eq ((k, c) ∷ d) e hd he same = omega (
    arith,
    sum-remove k e he,
    sum-eq d (Dict.remove dec k e) hd.1 (Dict.Distinct-remove dec k e he) (λ node.
        ground (arith, count-cons k c d node hd.0, Dict.get-remove dec k node e, same node)),
    count-cons_self k c d ∙ same k,
  )

  sum-set : (k : K) (v : ℕ) (d : Dict K ℕ) → sum (Dict.set dec k v d) + count d k ≡ sum d + v
  unfolding sum Dict.set Dict.get
  sum-set k v [] = omega arith
  sum-set k v ((j, c) ∷ d) = ground (arith, sum-set k v d)

  -- A valid counter can be incremented; the total and the own count grow by one, every other count
  -- stays, and the counter stays valid.
  pub increment-IsValid :
      (a : GCounter K)
      → IsValid a
      → (b : GCounter K) × (increment dec a ≡ some b)
        × IsValid b
        × (value b ≡ value a + 1)
        × ((node : K)
            → count b.payload node
              ≡ ite (dec a.node_id node) (count a.payload node + 1) (count a.payload node))
  unfolding increment value
  increment-IsValid a h =
      let (n, own) = h.own in
      let payload = Dict.set dec a.node_id (n + 1) a.payload in
      (
        record a { payload = payload },
        rw (own, increment),
        record {
          distinct = Dict.Distinct-set dec a.node_id (n + 1) a.payload h.distinct;
          own = (n + 1, Dict.get-set_self dec a.node_id (n + 1) a.payload);
        },
        ground (arith, sum-set a.node_id (n + 1) a.payload, own),
        λ node. elim (dec a.node_id node) [
          | yes p ↦ ground (arith, Dict.get-set dec a.node_id node (n + 1) a.payload, own)
          | no p ↦ ground (arith, Dict.get-set dec a.node_id node (n + 1) a.payload)
        ],
      )

  -- Two counters that merge each other's state have the same total, whatever the order of
  -- their entries.
  value-merge_comm :
      (a b : GCounter K) → IsValid a → IsValid b → value (merge dec a b) ≡ value (merge dec b a)
  unfolding value
  value-merge_comm a b ha hb =
      sum-eq (merge dec a b).payload (merge dec b a).payload (merge-IsValid a b ha).distinct
        (merge-IsValid b a hb).distinct
        (λ node. omega (arith, count-merge a b node hb, count-merge b a node ha))

  -- Merging is associative and idempotent on the counts, and merging in again a state that was
  -- merged already changes no count.
  count-merge_laws :
      (a b c : GCounter K) (node : K)
      → IsValid a
      → IsValid b
      → IsValid c
      → (count (merge dec (merge dec a b) c).payload node
          ≡ count (merge dec a (merge dec b c)).payload node)
        × (count (merge dec a a).payload node ≡ count a.payload node)
        × (count (merge dec (merge dec a b) b).payload node ≡ count (merge dec a b).payload node)
  count-merge_laws a b c node ha hb hc = omega (
    arith,
    count-merge (merge dec a b) c node hc,
    count-merge a b node hb,
    count-merge a (merge dec b c) node (merge-IsValid b c hb),
    count-merge b c node hc,
    count-merge a a node ha,
    count-merge (merge dec a b) b node hb,
  )
