-- ===== src/Raft/Calls.antt =====
-- How the calls of raft_sim.py change the nodes, each and in any sequence.
use mathlib.Core.Option.{some-injective}
use mathlib.Core.Path.{subst}
use assets_system.Prelude.Dict
use assets_system.Prelude.Dict.{Dict}
use assets_system.Prelude.{
  ℕ, ◌+◌, ◌/◌, ◌≡◌, ◌∙◌, sym, ap, refl, inl, inr, true, false, Option, none, some, List, [], ◌∷◌,
  ltb, length, arith, Bool-cases, Option-cases, ℕ_discrete,
}
use assets_system.Raft.{
  Node, Nodes, is_leader, may_vote, reset_election_timer, become_candidate, become_leader,
  step_down, grants, ask, request_vote, append, replicate, commit_majority, append_entries,
  reset_all, heartbeat,
}
use assets_system.Raft.Stability.{Evolves, Stable, Stable-refl, Stable-trans, Stable-set}

module _ {C : Type 0} where
  become_candidate-Evolves : (now : ℕ) (n : Node C) → Evolves n (become_candidate now n)
  unfolding become_candidate reset_election_timer
  become_candidate-Evolves now n = record {
    same_id = refl;
    same_peers = refl;
    term_grows = omega arith;
    vote_stays = λ e v h. absurd (omega (arith, e));
  }

  become_leader-Evolves : (n : Node C) → Evolves n (become_leader n)
  unfolding become_leader
  become_leader-Evolves n = record {
    same_id = refl;
    same_peers = refl;
    term_grows = omega arith;
    vote_stays = λ e v h. h;
  }

  step_down-Evolves :
      (peer self : Node C) → ltb self.term peer.term ≡ true → Evolves self (step_down peer self)
  unfolding step_down
  step_down-Evolves peer self h = record {
    same_id = refl;
    same_peers = refl;
    term_grows = ground (arith, h);
    vote_stays = λ e v k. absurd (ground (arith, h, e));
  }

  granted-Evolves :
      (self peer : Node C)
      → grants self peer ≡ true
      → Evolves peer (record peer { voted_for = some self.id })
  unfolding grants may_vote
  granted-Evolves self peer h = record {
    same_id = refl;
    same_peers = refl;
    term_grows = omega arith;
    vote_stays = λ e v k. ground (arith, h, k);
  }

  committed-Evolves : (index : ℕ) (n : Node C) → Evolves n (record n { commit_index = index })
  committed-Evolves index n = record {
    same_id = refl;
    same_peers = refl;
    term_grows = omega arith;
    vote_stays = λ e v h. h;
  }

  reset_election_timer-Evolves : (now : ℕ) (n : Node C) → Evolves n (reset_election_timer now n)
  unfolding reset_election_timer
  reset_election_timer-Evolves now n = record {
    same_id = refl;
    same_peers = refl;
    term_grows = omega arith;
    vote_stays = λ e v h. h;
  }

  append-Evolves : (term : ℕ) (command : C) (n : Node C) → Evolves n (append term command n)
  unfolding append
  append-Evolves term command n = record {
    same_id = refl;
    same_peers = refl;
    term_grows = omega arith;
    vote_stays = λ e v h. h;
  }

  -- The cases of a step of `ask`.
  pub data Asked (i p : ℕ) (ps : List ℕ) (votes : ℕ) (s : Nodes C)
      : Option (ℕ × Nodes C) → Type 0 where
    missing : Asked i p ps votes s none
    stops :
        (self peer : Node C)
        → Dict.get ℕ_discrete i s ≡ some self
        → Dict.get ℕ_discrete p s ≡ some peer
        → ltb self.term peer.term ≡ true
        → Asked i p ps votes s (some (0, Dict.set ℕ_discrete i (step_down peer self) s))
    grants_vote :
        (self peer : Node C)
        → Dict.get ℕ_discrete i s ≡ some self
        → Dict.get ℕ_discrete p s ≡ some peer
        → ltb self.term peer.term ≡ false
        → grants self peer ≡ true
        → Asked i p ps votes s (
            ask i ps
              (votes + 1)
              (Dict.set ℕ_discrete p (record peer { voted_for = some self.id }) s))
    refuses :
        (self peer : Node C)
        → Dict.get ℕ_discrete i s ≡ some self
        → Dict.get ℕ_discrete p s ≡ some peer
        → ltb self.term peer.term ≡ false
        → grants self peer ≡ false
        → Asked i p ps votes s (ask i ps votes s)

  pub ask-Asked :
      (i p : ℕ) (ps : List ℕ) (votes : ℕ) (s : Nodes C)
      → Asked i p ps votes s (ask i (p ∷ ps) votes s)
  unfolding ask
  ask-Asked i p ps votes s = elim (Option-cases (Dict.get ℕ_discrete i s)) [
    | inl e ↦ rw (e, ask) missing
    | inr (self, e) ↦ elim (Option-cases (Dict.get ℕ_discrete p s)) [
      | inl f ↦ rw (e, f, ask) missing
      | inr (peer, f) ↦ elim (Bool-cases (ltb self.term peer.term)) [
        | inl b ↦ rw (e, f, b, ask) (stops self peer e f b)
        | inr b ↦ elim (Bool-cases (grants self peer)) [
          | inl g ↦ rw (e, f, b, g, ask) (grants_vote self peer e f b g)
          | inr g ↦ rw (e, f, b, g, ask) (refuses self peer e f b g)
        ]
      ]
    ]
  ]

  Asked-Stable :
      (i p : ℕ) (ps : List ℕ) (votes v : ℕ) (s t : Nodes C) (r : Option (ℕ × Nodes C))
      → ((votes' : ℕ) (s' : Nodes C) → ask i ps votes' s' ≡ some (v, t) → Stable s' t)
      → Asked i p ps votes s r
      → r ≡ some (v, t)
      → Stable s t
  Asked-Stable i p ps votes v s t r ih missing h = cc
  Asked-Stable i p ps votes v s t r ih (stops self peer e f b) h =
      subst (λ x. Stable s x) (ap (λ q. q.1) (some-injective _ _ h))
        (Stable-set s i self (step_down peer self) e (step_down-Evolves peer self b))
  Asked-Stable i p ps votes v s t r ih (grants_vote self peer e f b g) h =
      let s' = Dict.set ℕ_discrete p (record peer { voted_for = some self.id }) s in
      Stable-trans s s' t
        (Stable-set s p peer (record peer { voted_for = some self.id }) f
          (granted-Evolves self peer g))
        (ih (votes + 1) s' h)
  Asked-Stable i p ps votes v s t r ih (refuses self peer e f b g) h = ih votes s h

  ask-Stable :
      (i : ℕ) (ps : List ℕ) (votes v : ℕ) (s t : Nodes C)
      → ask i ps votes s ≡ some (v, t)
      → Stable s t
  unfolding ask
  ask-Stable i [] votes v s t h =
      subst (λ x. Stable s x) (ap (λ p. p.1) (some-injective _ _ h)) (Stable-refl s)
  ask-Stable i (p ∷ ps) votes v s t h =
      Asked-Stable i p ps votes v s t _ (λ votes' s' h'. ask-Stable i ps votes' v s' t h')
        (ask-Asked i p ps votes s) h

  pub request_vote-Stable : (i v : ℕ) (s t : Nodes C) → request_vote i s ≡ some (v, t) → Stable s t
  unfolding request_vote
  request_vote-Stable i v s t h = elim (Option-cases (Dict.get ℕ_discrete i s)) [
    | inl e ↦ absurd (ground (arith, h, e))
    | inr (self, e) ↦ ask-Stable i self.peers 1 v s t (sym (rw (e, request_vote)) ∙ h)
  ]

  replicate-Stable :
      (i : ℕ) (command : C) (ps : List ℕ) (acks : ℕ) (r : Option ℕ) (s t : Nodes C)
      → replicate i command ps acks s ≡ some (r, t)
      → Stable s t
  unfolding replicate
  replicate-Stable i command [] acks r s t h =
      subst (λ x. Stable s x) (ap (λ q. q.1) (some-injective _ _ h)) (Stable-refl s)
  replicate-Stable i command (p ∷ ps) acks r s t h = elim (Option-cases (Dict.get ℕ_discrete i s)) [
    | inl e ↦ absurd (ground (arith, h, e))
    | inr (self, e) ↦ elim (Option-cases (Dict.get ℕ_discrete p s)) [
      | inl f ↦ absurd (ground (arith, h, e, f))
      | inr (peer, f) ↦ elim (Bool-cases (ltb self.term peer.term)) [
        | inl b ↦
            let same : Dict.set ℕ_discrete i (step_down peer self) s ≡ t =
              ground (arith, h, e, f, b) in
            subst (λ x. Stable s x) same
              (Stable-set s i self (step_down peer self) e (step_down-Evolves peer self b))
        | inr b ↦
            let peer' = append self.term command peer in
            Stable-trans s (Dict.set ℕ_discrete p peer' s) t
              (Stable-set s p peer peer' f (append-Evolves self.term command peer))
              (replicate-Stable i command ps (acks + 1) r _ t (sym (rw (e, f, b, replicate)) ∙ h))
      ]
    ]
  ]

  commit_majority-Stable :
      (i index : ℕ) (acks : Option ℕ) (s t : Nodes C)
      → commit_majority i index acks s ≡ some t
      → Stable s t
  unfolding commit_majority
  commit_majority-Stable i index none s t h =
      subst (λ x. Stable s x) (some-injective _ _ h) (Stable-refl s)
  commit_majority-Stable i index (some acks) s t h = elim (Option-cases (Dict.get ℕ_discrete i s)) [
    | inl e ↦ absurd (ground (arith, h, e))
    | inr (self, e) ↦ elim (Bool-cases (ltb (length s / 2) acks)) [
      | inl b ↦
          subst (λ x. Stable s x) (some-injective _ _ (sym (rw (e, b, commit_majority)) ∙ h))
            (Stable-set s i self (record self { commit_index = index }) e
              (committed-Evolves index self))
      | inr b ↦
          subst (λ x. Stable s x) (some-injective _ _ (sym (rw (e, b, commit_majority)) ∙ h))
            (Stable-refl s)
    ]
  ]

  append_entries-Stable :
      (i : ℕ) (command : C) (s t : Nodes C) → append_entries i command s ≡ some t → Stable s t
  unfolding append_entries
  append_entries-Stable i command s t h = elim (Option-cases (Dict.get ℕ_discrete i s)) [
    | inl e ↦ absurd (ground (arith, h, e))
    | inr (self, e) ↦ elim (Bool-cases (is_leader self.state)) [
      | inl b ↦
          let self' = append self.term command self in
          let s' = Dict.set ℕ_discrete i self' s in
          elim (Option-cases (replicate i command self.peers 1 s')) [
            | inl f ↦ absurd (ground (arith, h, e, b, f))
            | inr ((acks, u), f) ↦
                Stable-trans s s' t
                  (Stable-set s i self self' e (append-Evolves self.term command self))
                  (Stable-trans s' u t (replicate-Stable i command self.peers 1 acks s' u f) (
                    commit_majority-Stable i (length self'.log) acks u t
                      (sym (rw (e, b, f, append_entries)) ∙ h)))
          ]
      | inr b ↦
          subst (λ x. Stable s x) (some-injective _ _ (sym (rw (e, b, append_entries)) ∙ h))
            (Stable-refl s)
    ]
  ]

  reset_all-Stable :
      (now : ℕ) (ps : List ℕ) (s t : Nodes C) → reset_all now ps s ≡ some t → Stable s t
  unfolding reset_all
  reset_all-Stable now [] s t h = subst (λ x. Stable s x) (some-injective _ _ h) (Stable-refl s)
  reset_all-Stable now (p ∷ ps) s t h = elim (Option-cases (Dict.get ℕ_discrete p s)) [
    | inl e ↦ absurd (ground (arith, h, e))
    | inr (peer, e) ↦
        let peer' = reset_election_timer now peer in
        let s' = Dict.set ℕ_discrete p peer' s in
        Stable-trans s s' t (Stable-set s p peer peer' e (reset_election_timer-Evolves now peer))
          (reset_all-Stable now ps s' t (sym (rw (e, reset_all)) ∙ h))
  ]

  heartbeat-Stable : (now i : ℕ) (s t : Nodes C) → heartbeat now i s ≡ some t → Stable s t
  unfolding heartbeat
  heartbeat-Stable now i s t h = elim (Option-cases (Dict.get ℕ_discrete i s)) [
    | inl e ↦ absurd (ground (arith, h, e))
    | inr (self, e) ↦ elim (Bool-cases (is_leader self.state)) [
      | inl b ↦ reset_all-Stable now self.peers s t (sym (rw (e, b, heartbeat)) ∙ h)
      | inr b ↦
          subst (λ x. Stable s x) (some-injective _ _ (sym (rw (e, b, heartbeat)) ∙ h))
            (Stable-refl s)
    ]
  ]

  -- One call by a node of the cluster, or by the demo on one.
  pub data Step (s : Nodes C) : Nodes C → Type 0 where
    candidacy :
        (now i : ℕ) (n : Node C)
        → Dict.get ℕ_discrete i s ≡ some n
        → Step s (Dict.set ℕ_discrete i (become_candidate now n) s)
    leadership :
        (i : ℕ) (n : Node C)
        → Dict.get ℕ_discrete i s ≡ some n
        → Step s (Dict.set ℕ_discrete i (become_leader n) s)
    votes : (i v : ℕ) (t : Nodes C) → request_vote i s ≡ some (v, t) → Step s t
    appends : (i : ℕ) (command : C) (t : Nodes C) → append_entries i command s ≡ some t → Step s t
    beats : (now i : ℕ) (t : Nodes C) → heartbeat now i s ≡ some t → Step s t

  pub data Reach (s : Nodes C) : Nodes C → Type 0 where
    here : Reach s s
    next : {t u : Nodes C} → Reach s t → Step t u → Reach s u

  Step-Stable : {s t : Nodes C} → Step s t → Stable s t
  Step-Stable {s} (candidacy now i n h) =
      Stable-set s i n (become_candidate now n) h (become_candidate-Evolves now n)
  Step-Stable {s} (leadership i n h) =
      Stable-set s i n (become_leader n) h (become_leader-Evolves n)
  Step-Stable {s} (votes i v u h) = request_vote-Stable i v s u h
  Step-Stable {s} (appends i command u h) = append_entries-Stable i command s u h
  Step-Stable {s} (beats now i u h) = heartbeat-Stable now i s u h

  -- Any sequence of calls keeps the nodes, their ids and peers; no term falls, and a node that has
  -- voted keeps its vote as long as its term.
  pub Reach-Stable : (s t : Nodes C) → Reach s t → Stable s t
  Reach-Stable s t here = Stable-refl s
  Reach-Stable s u (next {t} r st) = Stable-trans s t u (Reach-Stable s t r) (Step-Stable st)
