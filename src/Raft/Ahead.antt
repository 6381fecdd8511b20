-- ===== src/Raft/Ahead.antt =====
-- A candidate whose new term is ahead of its peers' (raft_sim.py, `request_vote`).
use assets_system.Prelude.Dict
use assets_system.Prelude.Dict.{Dict}
use assets_system.Prelude.{
  ℕ, ◌+◌, ◌/◌, ◌≤◌, ◌<◌, ◌≡◌, ◌≢◌, ◌∙◌, refl, false, some, List, [], ◌∷◌, ltb, ◌==◌, length, arith,
  ℕ_discrete, All, contains,
}
use assets_system.Raft.{
  candidate, Node, Nodes, ask, request_vote, grants, become_candidate, reset_election_timer, elect,
}

module _ {C : Type 0} where
  -- The nodes of the list are there, with terms below `term`.
  abbrev pub Below : ℕ → Nodes C → List ℕ → Type 0
  Below term s ps =
      All (λ p. (n : Node C) × (Dict.get ℕ_discrete p s ≡ some n) × (n.term < term)) ps

  ask-Below :
      (i votes : ℕ) (ps : List ℕ) (s : Nodes C) (self : Node C)
      → Dict.get ℕ_discrete i s ≡ some self
      → Below self.term s ps
      → ask i ps votes s ≡ some (votes, s)
  unfolding ask grants
  ask-Below i votes [] s self e h = refl
  ask-Below i votes (p ∷ ps) s self e ((n, f, b), h) =
      let ahead : ltb self.term n.term ≡ false = ground (arith, b) in
      let other : (n.term == self.term) ≡ false = ground (arith, b) in
      rw (e, f, ahead, other, ask, grants) (ask-Below i votes ps s self e h)

  Below-set :
      (term i : ℕ) (ps : List ℕ) (s : Nodes C) (n : Node C)
      → contains ps i ≡ false
      → Below term s ps
      → Below term (Dict.set ℕ_discrete i n s) ps
  Below-set term i [] s n h b = tt
  Below-set term i (p ∷ ps) s n h ((m, e, l), b) =
      let ne : i ≢ p = ground (arith, h) in
      (
        (m, Dict.get-set_ne ℕ_discrete i p n s ne ∙ e, l),
        Below-set term i ps s n (ground (arith, h)) b,
      )

  -- In a cluster of two or more nodes, a node whose term is at least that of each of its peers does
  -- not win its next election: no peer votes for it or changes, its one vote is its own, and it
  -- stays a candidate, with its next term, a vote for itself and a new election timer.
  pub elect_ahead :
      (now i : ℕ) (s : Nodes C) (self : Node C)
      → Dict.get ℕ_discrete i s ≡ some self
      → contains self.peers i ≡ false
      → Below (self.term + 1) s self.peers
      → 2 ≤ length s
      → elect now i s
        ≡ some (
          1,
          Dict.set ℕ_discrete i
              (record self {
                state = candidate;
                term = self.term + 1;
                voted_for = some self.id;
                last_heartbeat = now;
              })
              s,
        )
  unfolding elect become_candidate reset_election_timer request_vote
  elect_ahead now i s self e apart below two =
      let self' = become_candidate now self in
      let s' = Dict.set ℕ_discrete i self' s in
      let own : Dict.get ℕ_discrete i s' ≡ some self' = Dict.get-set_self ℕ_discrete i self' s in
      let few : ltb (length s / 2) 1 ≡ false = ground (arith, two) in
      let asked =
        ask-Below i 1 self.peers s' self' own
          (Below-set (self.term + 1) i self.peers s self' apart below) in
      rw (e, own, asked, own, few, elect, request_vote)
