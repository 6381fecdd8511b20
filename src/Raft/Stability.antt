-- ===== src/Raft/Stability.antt =====
-- Changes of nodes (raft_sim.py) under which ids and peers stay, the vote stays within a term, and
-- the term does not fall.
use mathlib.Core.Option.{some-injective}
use mathlib.Core.Path.{subst}
use assets_system.Prelude.Dict
use assets_system.Prelude.Dict.{Dict}
use assets_system.Prelude.Keys
use assets_system.Prelude.{ℕ, ◌≤◌, ◌≡◌, ◌∙◌, sym, ap, refl, some, length, arith, ℕ_discrete}
use assets_system.Raft.{Node, Nodes}

module _ {C : Type 0} where
  -- How a node may change: its vote stays as long as its term does.
  pub record Evolves (n m : Node C) : Type 0 where
    pub same_id : m.id ≡ n.id
    pub same_peers : m.peers ≡ n.peers
    pub term_grows : n.term ≤ m.term
    pub vote_stays : m.term ≡ n.term → (v : ℕ) → n.voted_for ≡ some v → m.voted_for ≡ some v

  Evolves-refl : (n : Node C) → Evolves n n
  Evolves-refl n = record {
    same_id = refl;
    same_peers = refl;
    term_grows = omega arith;
    vote_stays = λ e v h. h;
  }

  Evolves-trans : (n m l : Node C) → Evolves n m → Evolves m l → Evolves n l
  Evolves-trans n m l f g = record {
    same_id = g.same_id ∙ f.same_id;
    same_peers = g.same_peers ∙ f.same_peers;
    term_grows = omega (arith, f.term_grows, g.term_grows);
    vote_stays = λ e v h.
        g.vote_stays (omega (arith, e, f.term_grows, g.term_grows)) v
          (f.vote_stays (omega (arith, e, f.term_grows, g.term_grows)) v h);
  }

  -- How the nodes of a cluster may change.
  pub record Stable (s t : Nodes C) : Type 0 where
    pub keeps :
        (j : ℕ) (n : Node C)
        → Dict.get ℕ_discrete j s ≡ some n
        → (m : Node C) × (Dict.get ℕ_discrete j t ≡ some m) × Evolves n m
    pub keys : (j : ℕ) → Keys.has ℕ_discrete t j ≡ Keys.has ℕ_discrete s j
    pub size : length t ≡ length s
    pub distinct : Dict.Distinct ℕ_discrete s → Dict.Distinct ℕ_discrete t

  pub Stable-refl : (s : Nodes C) → Stable s s
  Stable-refl s = record {
    keeps = λ j n h. (n, h, Evolves-refl n);
    keys = λ j. refl;
    size = refl;
    distinct = λ d. d;
  }

  pub Stable-trans : (s t u : Nodes C) → Stable s t → Stable t u → Stable s u
  Stable-trans s t u f g = record {
    keeps = λ j n h.
        let (m, hm, e) = f.keeps j n h in
        let (l, hl, e') = g.keeps j m hm in (l, hl, Evolves-trans n m l e e');
    keys = λ j. g.keys j ∙ f.keys j;
    size = g.size ∙ f.size;
    distinct = λ d. g.distinct (f.distinct d);
  }

  pub Stable-set :
      (s : Nodes C) (i : ℕ) (n m : Node C)
      → Dict.get ℕ_discrete i s ≡ some n
      → Evolves n m
      → Stable s (Dict.set ℕ_discrete i m s)
  Stable-set s i n m h e = record {
    keeps = λ j k hk. elim (ℕ_discrete i j) [
      | yes p ↦ (
        m,
        rw p (Dict.get-set_self ℕ_discrete j m s),
        subst (λ x. Evolves x m)
            (some-injective _ _ (sym h ∙ ap (λ x. Dict.get ℕ_discrete x s) p ∙ hk)) e,
      )
      | no p ↦ (k, Dict.get-set_ne ℕ_discrete i j m s p ∙ hk, Evolves-refl k)
    ];
    keys = λ j. ground (arith, Keys.has-set ℕ_discrete i j m s, h);
    size = ground (arith, Keys.length-set ℕ_discrete i m s, h);
    distinct = λ d. Dict.Distinct-set ℕ_discrete i m s d;
  }
