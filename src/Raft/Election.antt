-- ===== src/Raft/Election.antt =====
-- The voters of a call of `request_vote` and the winners of elections (raft_sim.py).
use mathlib.Core.Option.{some-injective}
use mathlib.Core.Path.{subst}
use assets_system.Prelude.Dict
use assets_system.Prelude.Dict.{Dict}
use assets_system.Prelude.{
  ℕ, ◌+◌, ◌/◌, ◌<◌, ◌≡◌, ◌∙◌, sym, ap, refl, ◌⊎◌, inl, inr, false, Option, some, List, [], ◌∷◌,
  length, arith, Option-cases, ℕ_discrete, contains, All, All-map,
}
use assets_system.Raft.{Node, Nodes, grants, ask, request_vote}
use assets_system.Raft.Voters.{
  Unique, Apart, Apart-cons, Apart-singleton, All-member, Within, overlap,
}
use assets_system.Raft.Stability.{Evolves, Stable, Stable-refl, Stable-trans}
use assets_system.Raft.Calls.{
  Asked, missing, stops, grants_vote, refuses, ask-Asked, request_vote-Stable, Reach, Reach-Stable,
}

module _ {C : Type 0} where
  -- Every node stands under its id, and its peers are different nodes, itself not among them.
  pub record IsCluster (s : Nodes C) : Type 0 where
    pub distinct : Dict.Distinct ℕ_discrete s
    pub ids : (j : ℕ) (n : Node C) → Dict.get ℕ_discrete j s ≡ some n → n.id ≡ j
    pub peers :
        (j : ℕ) (n : Node C)
        → Dict.get ℕ_discrete j s ≡ some n
        → Unique n.peers × (contains n.peers j ≡ false)

  -- the node before some calls
  earlier :
      (s t : Nodes C) (j : ℕ) (m : Node C)
      → Stable s t
      → Dict.get ℕ_discrete j t ≡ some m
      → (n : Node C) × (Dict.get ℕ_discrete j s ≡ some n) × Evolves n m
  earlier s t j m st h = elim (Option-cases (Dict.get ℕ_discrete j s)) [
    | inl e ↦ absurd (ground (arith, st.keys j, h, e))
    | inr (n, e) ↦
        let (m', h', ev) = st.keeps j n e in
        (n, e, subst (λ x. Evolves n x) (some-injective _ _ (sym h' ∙ h)) ev)
  ]

  IsCluster-Stable : (s t : Nodes C) → Stable s t → IsCluster s → IsCluster t
  IsCluster-Stable s t st c = record {
    distinct = st.distinct c.distinct;
    ids = λ j m h. let (n, e, ev) = earlier s t j m st h in ev.same_id ∙ c.ids j n e;
    peers = λ j m h.
        let (n, e, ev) = earlier s t j m st h in
        subst (λ ps. Unique ps × (contains ps j ≡ false)) (sym ev.same_peers) (c.peers j n e);
  }

  -- Node `j` has the term and has voted for the candidate.
  abbrev pub Supports : ℕ → ℕ → Nodes C → ℕ → Type 0
  Supports candidate term s j =
      (n : Node C) × (Dict.get ℕ_discrete j s ≡ some n)
      × (n.term ≡ term)
      × (n.voted_for ≡ some candidate)

  -- The one who asks, in its term.
  abbrev Asks : ℕ → ℕ → ℕ → Nodes C → Type 0
  Asks i candidate term s =
      (n : Node C) × (Dict.get ℕ_discrete i s ≡ some n) × (n.id ≡ candidate) × (n.term ≡ term)

  Supports-set :
      (c term p j : ℕ) (s : Nodes C) (n : Node C)
      → n.term ≡ term
      → n.voted_for ≡ some c
      → Supports c term s j
      → Supports c term (Dict.set ℕ_discrete p n s) j
  Supports-set c term p j s n e v h = elim (ℕ_discrete p j) [
    | yes q ↦ (n, rw q (Dict.get-set_self ℕ_discrete j n s), e, v)
    | no q ↦ (h.0, Dict.get-set_ne ℕ_discrete p j n s q ∙ h.1, h.2, h.3)
  ]

  Asks-set :
      (i c term p : ℕ) (s : Nodes C) (peer : Node C) (v : Option ℕ)
      → Dict.get ℕ_discrete p s ≡ some peer
      → Asks i c term s
      → Asks i c term (Dict.set ℕ_discrete p (record peer { voted_for = v }) s)
  Asks-set i c term p s peer v f (n, e, a, b) = elim (ℕ_discrete p i) [
    | yes q ↦
        let same : n ≡ peer = some-injective _ _ (sym e ∙ rw (sym q) f) in
        (
          record peer { voted_for = v },
          ground (arith, q, Dict.get-set_self ℕ_discrete p (record peer { voted_for = v }) s),
          ap (λ x. x.id) (sym same) ∙ a,
          ap (λ x. x.term) (sym same) ∙ b,
        )
    | no q ↦ (n, Dict.get-set_ne ℕ_discrete p i (record peer { voted_for = v }) s q ∙ e, a, b)
  ]

  -- The outcome of a loop of `ask`: it was ended, or the votes are of so many nodes.
  abbrev Counted : ℕ → ℕ → ℕ → Nodes C → Type 0
  Counted c term v t =
      (v ≡ 0)
      ⊎ ((voters : List ℕ) × (length voters ≡ v) × Unique voters × All (Supports c term t) voters)

  Asked-Counted :
      (i p c term v : ℕ) (ps voters : List ℕ) (s t : Nodes C) (r : Option (ℕ × Nodes C))
      → ((voters' : List ℕ) (s' : Nodes C)
          → Asks i c term s'
          → Unique voters'
          → All (Supports c term s') voters'
          → Apart voters' ps
          → ask i ps (length voters') s' ≡ some (v, t)
          → Counted c term v t)
      → Asks i c term s
      → Unique voters
      → All (Supports c term s) voters
      → Apart voters (p ∷ ps)
      → Unique (p ∷ ps)
      → Asked i p ps (length voters) s r
      → r ≡ some (v, t)
      → Counted c term v t
  unfolding grants
  Asked-Counted i p c term v ps voters s t r ih a u w ap' up missing h = cc
  Asked-Counted i p c term v ps voters s t r ih a u w ap' up (stops self peer e f b) h =
      inl (ground (arith, h))
  Asked-Counted i p c term v ps voters s t r ih a u w ap' up (grants_vote self peer e f b g) h =
      let same : a.0 ≡ self = some-injective _ _ (sym a.1 ∙ e) in
      let id : self.id ≡ c = ap (λ x. x.id) (sym same) ∙ a.2 in
      let own : self.term ≡ term = ap (λ x. x.term) (sym same) ∙ a.3 in
      let granted = record peer { voted_for = some self.id } in
      let one_more : length voters + 1 ≡ length (p ∷ voters) = omega arith in
      let same_term : peer.term ≡ term = ground (arith, g, own) in
      ih (p ∷ voters) (Dict.set ℕ_discrete p granted s)
        (Asks-set i c term p s peer (some self.id) f a) (ap'.0, u)
        (
          (granted, Dict.get-set_self ℕ_discrete p granted s, same_term, ap some id),
          All-map _ _ voters (λ j. Supports-set c term p j s granted same_term (ap some id)) w,
        )
        (Apart-cons p voters ps up.0 ap'.1)
        (subst (λ m. ask i ps m (Dict.set ℕ_discrete p granted s) ≡ some (v, t)) one_more h)
  Asked-Counted i p c term v ps voters s t r ih a u w ap' up (refuses self peer e f b g) h =
      ih voters s a u w ap'.1 h

  ask-Counted :
      (i c term v : ℕ) (ps voters : List ℕ) (s t : Nodes C)
      → Asks i c term s
      → Unique voters
      → All (Supports c term s) voters
      → Apart voters ps
      → Unique ps
      → ask i ps (length voters) s ≡ some (v, t)
      → Counted c term v t
  unfolding ask
  ask-Counted i c term v [] voters s t a u w apart up h =
      let same : s ≡ t = ground (arith, h) in
      inr (voters, ground (arith, h), u, subst (λ x. All (Supports c term x) voters) same w)
  ask-Counted i c term v (p ∷ ps) voters s t a u w apart up h =
      Asked-Counted i p c term v ps voters s t _
        (λ voters' s' a' u' w' apart' h'.
          ask-Counted i c term v ps voters' s' t a' u' w' apart' up.1 h')
        a u w apart up (ask-Asked i p ps (length voters) s) h

  -- A node that stands as a candidate in the term asks for votes and gets a majority.
  pub record Wins (i term : ℕ) (s t : Nodes C) : Type 0 where
    pub votes : ℕ
    pub candidate : Supports i term s i
    pub asked : request_vote i s ≡ some (votes, t)
    pub majority : length s / 2 < votes

  -- The voters of a node that wins.
  Wins-voters :
      (i term : ℕ) (s t : Nodes C)
      → IsCluster s
      → (w : Wins i term s t)
      → (voters : List ℕ) × (length voters ≡ w.votes)
        × Unique voters
        × All (Supports i term t) voters
  unfolding request_vote
  Wins-voters i term s t c w =
      let (n, e, a, v) = w.candidate in
      let (peers, apart) = c.peers i n e in
      let counted =
        ask-Counted i i term w.votes n.peers (i ∷ []) s t (n, e, c.ids i n e, a) (refl, tt)
          (w.candidate, tt) (Apart-singleton i n.peers apart) peers
          (sym (rw (e, request_vote)) ∙ w.asked) in
      elim counted [ inl z ↦ absurd (omega (arith, z, w.majority)) | inr voters ↦ voters ]

  Within-Stable :
      (c term : ℕ) (s t : Nodes C) (voters : List ℕ)
      → Stable s t
      → All (Supports c term s) voters
      → Within t voters
  Within-Stable c term s t voters st h =
      All-map _ _ voters (λ j (n, e, a, v). let (m, f, ev) = st.keeps j n e in ground (arith, f)) h

  -- The vote of a node in a term is the same at all later times of the term.
  one_vote :
      (i k term j : ℕ) (s t : Nodes C)
      → Stable s t
      → Supports i term s j
      → Supports k term t j
      → i ≡ k
  one_vote i k term j s t st (n, e, a, v) (m, f, b, w) =
      let (m', f', ev) = st.keeps j n e in
      let same : m' ≡ m = some-injective _ _ (sym f' ∙ f) in
      let stays = ev.vote_stays (ap (λ x. x.term) same ∙ b ∙ sym a) i v in
      some-injective _ _ (sym stays ∙ ap (λ x. x.voted_for) same ∙ w)

  -- In a term at most one node wins an election: of two nodes that each won a majority of a
  -- cluster's votes in the same term, with any sequence of calls between, both are the same.
  pub one_winner :
      (i k term : ℕ) (s t u v : Nodes C)
      → IsCluster s
      → Wins i term s t
      → Reach t u
      → Wins k term u v
      → i ≡ k
  one_winner i k term s t u v c w r w' =
      let st = request_vote-Stable i w.votes s t w.asked in
      let tu = Reach-Stable t u r in
      let uv = request_vote-Stable k w'.votes u v w'.asked in
      let tv = Stable-trans t u v tu uv in
      let cu = IsCluster-Stable s u (Stable-trans s t u st tu) c in
      let (xs, lx, ux, sx) = Wins-voters i term s t c w in
      let (ys, ly, uy, sy) = Wins-voters k term u v cu w' in
      let (j, jx, jy) =
        overlap xs ys v (uv.distinct cu.distinct) ux uy (Within-Stable i term t v xs tv sx)
          (Within-Stable k term v v ys (Stable-refl v) sy)
          (omega (arith, lx, ly, w.majority, w'.majority, st.size, tu.size, uv.size)) in
      one_vote i k term j t v tv (All-member _ xs j sx jx) (All-member _ ys j sy jy)
