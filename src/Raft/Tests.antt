-- ===== src/Raft/Tests.antt =====
-- The demo of raft_sim.py, an election that is won, and the theorems at these clusters.
use mathlib.Core.Option
use assets_system.Prelude.Dict
use assets_system.Prelude.Dict.{Dict}
use assets_system.Prelude.Keys
use assets_system.Prelude.{
  ℕ, ◌≡◌, refl, false, Option, none, some, List, [], ◌∷◌, arith, ℕ_discrete, contains,
}
use assets_system.Raft.{
  Node, Nodes, follower, candidate, is_leader, may_vote, fill, init, reset_election_timer,
  election_due, become_candidate, become_leader, step_down, grants, ask, request_vote, append,
  replicate, commit_majority, append_entries, reset_all, heartbeat, elect,
}
use assets_system.Raft.Calls.{here}
use assets_system.Raft.Election.{IsCluster, Wins, one_winner}
use assets_system.Raft.Voters.{Unique}
use assets_system.Raft.Ahead.{Below, elect_ahead}

program : Unit {0}
unfolding is_leader may_vote fill init reset_election_timer election_due become_candidate
    become_leader step_down grants ask request_vote append replicate commit_majority append_entries
    reset_all heartbeat elect Dict.get Dict.set ℕ_discrete
program = tt

abbrev fresh : ℕ → List ℕ → Node ℕ
fresh id peers = record {
  id = id;
  peers = peers;
  state = follower;
  term = 0;
  voted_for = none;
  log = [];
  commit_index = 0;
  next_index = [];
  match_index = [];
  election_timeout = 20;
  last_heartbeat = 0;
}

abbrev demo_nodes : Nodes ℕ
demo_nodes = (0, fresh 0 (1 ∷ 2 ∷ [])) ∷ (1, fresh 1 (0 ∷ 2 ∷ [])) ∷ (2, fresh 2 (0 ∷ 1 ∷ [])) ∷ []

demo_init : init {C = ℕ} 0 (1 ∷ 2 ∷ []) 20 0 ≡ fresh 0 (1 ∷ 2 ∷ [])
unfolding program
demo_init = refl

-- The demo's election gets one vote of three.
demo_votes : Option.map {B = ℕ} (λ p. p.0) (elect 5 0 demo_nodes) ≡ some 1
unfolding program
demo_votes = refl

-- Node 0 stands as a candidate in term 1, which the others have reached without a vote.
abbrev standing : Nodes ℕ
standing =
    (0, record (fresh 0 (1 ∷ 2 ∷ [])) { state = candidate; term = 1; voted_for = some 0 })
    ∷ (1, record (fresh 1 (0 ∷ 2 ∷ [])) { term = 1 })
    ∷ (2, record (fresh 2 (0 ∷ 1 ∷ [])) { term = 1 })
    ∷ []

abbrev elected : Nodes ℕ
elected =
    (0, record (fresh 0 (1 ∷ 2 ∷ [])) { state = candidate; term = 1; voted_for = some 0 })
    ∷ (1, record (fresh 1 (0 ∷ 2 ∷ [])) { term = 1; voted_for = some 0 })
    ∷ (2, record (fresh 2 (0 ∷ 1 ∷ [])) { term = 1; voted_for = some 0 })
    ∷ []

standing_votes : request_vote 0 standing ≡ some (3, elected)
unfolding program
standing_votes = refl

elected_votes : request_vote 0 elected ≡ some (3, elected)
unfolding program
elected_votes = refl

-- A leader's entry reaches all logs and is committed.
leader_commits :
    Option.map {B = Option ℕ}
      (λ s. Option.map {B = ℕ} (λ n. n.commit_index) (Dict.get ℕ_discrete 0 s))
      (append_entries 0 7 (
        Dict.set ℕ_discrete 0
          (become_leader (record (fresh 0 (1 ∷ 2 ∷ [])) { term = 1; voted_for = some 0 }))
          elected))
    ≡ some (some 1)
unfolding program
leader_commits = refl

standing-Wins : Wins 0 1 standing elected
unfolding program
standing-Wins = record {
  votes = 3;
  candidate = (
    record (fresh 0 (1 ∷ 2 ∷ [])) { state = candidate; term = 1; voted_for = some 0 },
    refl,
    refl,
    refl,
  );
  asked = refl;
  majority = omega arith;
}

elected-Wins : Wins 0 1 elected elected
unfolding program
elected-Wins = record {
  votes = 3;
  candidate = (
    record (fresh 0 (1 ∷ 2 ∷ [])) { state = candidate; term = 1; voted_for = some 0 },
    refl,
    refl,
    refl,
  );
  asked = refl;
  majority = omega arith;
}

standing-IsCluster : IsCluster standing
unfolding program
standing-IsCluster = record {
  distinct = (refl, (refl, (refl, tt)));
  ids =
      λ j n h. Keys.get-All ℕ_discrete (λ k m. m.id ≡ k) j n standing (refl, (refl, (refl, tt))) h;
  peers = λ j n h.
      Keys.get-All ℕ_discrete (λ k m. Unique m.peers × (contains m.peers k ≡ false)) j n standing
        (((refl, (refl, tt)), refl), (((refl, (refl, tt)), refl), (((refl, (refl, tt)), refl), tt)))
        h;
}

one_winner_example : ◌≡◌ {A = ℕ} 0 0
one_winner_example =
    one_winner 0 0 1 standing elected elected elected standing-IsCluster standing-Wins here
      elected-Wins

demo_node : Dict.get ℕ_discrete 0 demo_nodes ≡ some (fresh 0 (1 ∷ 2 ∷ []))
unfolding program
demo_node = refl

demo-Below : Below 1 demo_nodes (1 ∷ 2 ∷ [])
unfolding program
demo-Below =
    ((fresh 1 (0 ∷ 2 ∷ []), refl, omega arith), ((fresh 2 (0 ∷ 1 ∷ []), refl, omega arith), tt))

elect_ahead_example :
    elect 5 0 demo_nodes
    ≡ some (
      1,
      Dict.set ℕ_discrete 0
          (record (fresh 0 (1 ∷ 2 ∷ [])) {
            state = candidate;
            term = 1;
            voted_for = some 0;
            last_heartbeat = 5;
          })
          demo_nodes,
    )
elect_ahead_example =
    elect_ahead 5 0 demo_nodes (fresh 0 (1 ∷ 2 ∷ [])) demo_node refl demo-Below (omega arith)
