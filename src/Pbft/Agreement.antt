-- ===== src/Pbft/Agreement.antt =====
-- What it means for the cluster that a request is committed (consensus/pbft/conditions.go) on
-- replicas that started as `NewReplica` makes them and have handled any inputs since.
use b7s.Common.{ℕ, true, List, ◌≡◌, ◌≤◌, ◌+◌, ◌%◌, nat_eq, arith, length}
use b7s.Common.Text.{Text, text_eq}
use b7s.Common.Map.{Map, lookup}
use b7s.Models.{PeerId}
use b7s.Pbft.Core.{
  get_message_id, message_id_eq, commit_quorum, new_pbft_core, calc_byzantine_tolerance,
}
use b7s.Pbft.Core.Quorum.{IsQuorum, shared, commit_quorums_overlap}
use b7s.Pbft.Message.{Commit}
use b7s.Pbft.State.{Replica}
use b7s.Pbft.Conditions.{committed}
use b7s.Pbft.Commit.{commits_at}
use b7s.Pbft.Receipts.Genuine.{IsGenuine, commits_at-Genuine}
use b7s.Pbft.Reached.{Reached, Reached-Genuine}

-- The commits that a replica has for a place.
abbrev pub commits_for : Replica → ℕ → ℕ → Map PeerId Commit
commits_for r view sequence = (commits_at (lookup (get_message_id view sequence) r.commits)).m

committed_count :
    (r : Replica) (view sequence : ℕ) (digest : Text)
    → committed r view sequence digest ≡ true
    → commit_quorum r.core ≤ length (commits_for r view sequence)
unfolding committed
committed_count r view sequence digest h = ground arith

committed-IsQuorum :
    (r : Replica) (view sequence : ℕ) (digest : Text) (peers : List PeerId)
    → r.peers ≡ peers
    → r.f ≡ calc_byzantine_tolerance (length peers)
    → IsGenuine r
    → committed r view sequence digest ≡ true
    → IsQuorum peers (commits_for r view sequence)
unfolding commit_quorum new_pbft_core
committed-IsQuorum r view sequence digest peers e f v h =
    let id = get_message_id view sequence in
    let receipts = commits_at-Genuine r.peers id r.commits v.2 in
    (receipts.0, rw (← e) receipts.1, ground (arith, f, committed_count r view sequence digest h))

-- If the number of peers is 1 modulo 3, and a request is committed at a view and sequence number on
-- one replica of the cluster, and one on another, each after any run from its start, then the two
-- have commits for that view and sequence number under more of the same peers than may be faulty.
pub committed_replicas_overlap :
    (peers : List PeerId) (a b : Replica) (view sequence : ℕ) (digest other : Text)
    → length peers % 3 ≡ 1
    → Reached peers a
    → Reached peers b
    → committed a view sequence digest ≡ true
    → committed b view sequence other ≡ true
    → calc_byzantine_tolerance (length peers) + 1
      ≤ length (shared peers (commits_for a view sequence) (commits_for b view sequence))
committed_replicas_overlap peers a b view sequence digest other h ra rb ca cb =
    let (pa, fa, ma, ga) = Reached-Genuine peers a ra in
    let (pb, fb, mb, gb) = Reached-Genuine peers b rb in
    commit_quorums_overlap peers (commits_for a view sequence) (commits_for b view sequence) h
      (committed-IsQuorum a view sequence digest peers pa fa ga ca)
      (committed-IsQuorum b view sequence other peers pb fb gb cb)
