-- ===== src/Raft.antt =====
-- raft_sim.py: the nodes of a cluster, their election and the replication of the leader's log. The
-- nodes are the dict `nodes`, and a node is its id: a method of a node gets the id and the dict,
-- and returns the new dict, or `none` for a KeyError. Commands are of any type. `time.time()` is an
-- argument, and the random election timeout one of `init`.
use mathlib.Core.Option
use assets_system.Prelude.Dict
use assets_system.Prelude.Dict.{Dict}
use assets_system.Prelude.{
  ℕ, suc, ◌+◌, ◌-◌, ◌/◌, Bool, true, false, ◌&&◌, Option, none, some, List, [], ◌∷◌, ◌++◌, ltb,
  if◌then◌else◌, ◌==◌, length, ℕ_discrete,
}
pub mod Voters
pub mod Stability
pub mod Calls
pub mod Election
pub mod Ahead
mod Tests

pub data State : Type 0 where
  follower candidate leader : State

pub record Entry (C : Type 0) : Type 0 where
  pub term : ℕ
  pub command : C

pub record Node (C : Type 0) : Type 0 where
  pub id : ℕ
  pub peers : List ℕ
  pub state : State
  pub term : ℕ
  pub voted_for : Option ℕ
  pub log : List (Entry C)
  pub commit_index : ℕ
  pub next_index : Dict ℕ ℕ
  pub match_index : Dict ℕ ℕ
  pub election_timeout : ℕ
  pub last_heartbeat : ℕ

abbrev pub Nodes : Type 0 → Type 0
Nodes C = Dict ℕ (Node C)

-- `self.state != State.LEADER` is its negation
unfoldable pub is_leader : State → Bool
is_leader leader = true
is_leader candidate = false
is_leader follower = false

-- `peer.voted_for is None or peer.voted_for == self.id`
unfoldable pub may_vote : Option ℕ → ℕ → Bool
may_vote none candidate_id = true
may_vote (some v) candidate_id = v == candidate_id

-- the two assignments to the dicts of a new leader
unfoldable pub fill : ℕ → List ℕ → Dict ℕ ℕ → Dict ℕ ℕ
fill value [] d = d
fill value (p ∷ ps) d = fill value ps (Dict.set ℕ_discrete p value d)

module _ {C : Type 0} where
  unfoldable pub init : ℕ → List ℕ → ℕ → ℕ → Node C
  init node_id peers timeout now = record {
    id = node_id;
    peers = peers;
    state = follower;
    term = 0;
    voted_for = none;
    log = [];
    commit_index = 0;
    next_index = [];
    match_index = [];
    election_timeout = timeout;
    last_heartbeat = now;
  }

  unfoldable pub reset_election_timer : ℕ → Node C → Node C
  reset_election_timer now node = record node { last_heartbeat = now }

  unfoldable pub election_due : ℕ → Node C → Bool
  election_due now node = ltb node.election_timeout (now - node.last_heartbeat)

  unfoldable pub become_candidate : ℕ → Node C → Node C
  unfolding reset_election_timer
  become_candidate now node =
      reset_election_timer now
        (record node { state = candidate; term = node.term + 1; voted_for = some node.id })

  unfoldable pub become_leader : Node C → Node C
  unfolding fill
  become_leader node = record node {
    state = leader;
    next_index = fill (length node.log + 1) node.peers node.next_index;
    match_index = fill 0 node.peers node.match_index;
  }

  -- a peer with a higher term ends the call
  unfoldable pub step_down : Node C → Node C → Node C
  step_down peer self = record self { term = peer.term; state = follower }

  unfoldable pub grants : Node C → Node C → Bool
  unfolding may_vote
  grants self peer = (peer.term == self.term) && may_vote peer.voted_for self.id

  -- the loop of `request_vote` of node `i` over the peers, with the votes so far
  unfoldable pub ask : ℕ → List ℕ → ℕ → Nodes C → Option (ℕ × Nodes C)
  unfolding grants step_down
  ask i [] votes nodes = some (votes, nodes)
  ask i (p ∷ ps) votes nodes = elim (Dict.get ℕ_discrete i nodes) [
    | none ↦ none
    | some self ↦ elim (Dict.get ℕ_discrete p nodes) [
      | none ↦ none
      | some peer ↦
          let granted = Dict.set ℕ_discrete p (record peer { voted_for = some self.id }) nodes in
          let rest =
            if grants self peer then ask i ps (votes + 1) granted else ask i ps votes nodes in
          if ltb self.term peer.term
          then some (0, Dict.set ℕ_discrete i (step_down peer self) nodes)
          else rest
    ]
  ]

  unfoldable pub request_vote : ℕ → Nodes C → Option (ℕ × Nodes C)
  unfolding ask
  request_vote i nodes = elim (Dict.get ℕ_discrete i nodes) [
    | none ↦ none
    | some self ↦ ask i self.peers 1 nodes
  ]

  -- `self.log.append({"term": self.term, "command": command})`, for the log of any node
  unfoldable pub append : ℕ → C → Node C → Node C
  append term command node = record node {
    log = node.log ++ record { term = term; command = command } ∷ [];
  }

  -- the loop of `append_entries` of node `i` over the peers, with the acks so far; no acks are left
  -- where a peer with a higher term ended the call
  unfoldable pub replicate : ℕ → C → List ℕ → ℕ → Nodes C → Option (Option ℕ × Nodes C)
  unfolding append step_down
  replicate i command [] acks nodes = some (some acks, nodes)
  replicate i command (p ∷ ps) acks nodes = elim (Dict.get ℕ_discrete i nodes) [
    | none ↦ none
    | some self ↦ elim (Dict.get ℕ_discrete p nodes) [
      | none ↦ none
      | some peer ↦
          let rest =
            replicate i command ps (acks + 1)
              (Dict.set ℕ_discrete p (append self.term command peer) nodes) in
          if ltb self.term peer.term
          then some (none, Dict.set ℕ_discrete i (step_down peer self) nodes)
          else rest
    ]
  ]

  -- `if acks > len(nodes) // 2: self.commit_index = index`
  unfoldable pub commit_majority : ℕ → ℕ → Option ℕ → Nodes C → Option (Nodes C)
  commit_majority i index none nodes = some nodes
  commit_majority i index (some acks) nodes = elim (Dict.get ℕ_discrete i nodes) [
    | none ↦ none
    | some self ↦ some (
        if ltb (length nodes / 2) acks
        then Dict.set ℕ_discrete i (record self { commit_index = index }) nodes
        else nodes)
  ]

  unfoldable pub append_entries : ℕ → C → Nodes C → Option (Nodes C)
  unfolding append replicate commit_majority is_leader
  append_entries i command nodes = elim (Dict.get ℕ_discrete i nodes) [
    | none ↦ none
    | some self ↦
        let self' = append self.term command self in
        let nodes' = Dict.set ℕ_discrete i self' nodes in
        if is_leader self.state
        then elim (replicate i command self.peers 1 nodes') [
          | none ↦ none
          | some (acks, nodes'') ↦ commit_majority i (length self'.log) acks nodes''
        ]
        else some nodes
  ]

  -- the loop of `heartbeat`
  unfoldable pub reset_all : ℕ → List ℕ → Nodes C → Option (Nodes C)
  unfolding reset_election_timer
  reset_all now [] nodes = some nodes
  reset_all now (p ∷ ps) nodes = elim (Dict.get ℕ_discrete p nodes) [
    | none ↦ none
    | some peer ↦ reset_all now ps (Dict.set ℕ_discrete p (reset_election_timer now peer) nodes)
  ]

  unfoldable pub heartbeat : ℕ → ℕ → Nodes C → Option (Nodes C)
  unfolding reset_all is_leader
  heartbeat now i nodes = elim (Dict.get ℕ_discrete i nodes) [
    | none ↦ none
    | some self ↦ if is_leader self.state then reset_all now self.peers nodes else some nodes
  ]

  -- `demo`: the candidacy of a node that an election follows, and the leader if it has a majority
  unfoldable pub elect : ℕ → ℕ → Nodes C → Option (ℕ × Nodes C)
  unfolding become_candidate request_vote become_leader
  elect now i nodes = elim (Dict.get ℕ_discrete i nodes) [
    | none ↦ none
    | some self ↦ elim (request_vote i (Dict.set ℕ_discrete i (become_candidate now self) nodes)) [
      | none ↦ none
      | some (votes, nodes') ↦ elim (Dict.get ℕ_discrete i nodes') [
        | none ↦ none
        | some self' ↦ some (
          votes,
          (if ltb (length nodes / 2) votes
              then Dict.set ℕ_discrete i (become_leader self') nodes'
              else nodes'),
        )
      ]
    ]
  ]
