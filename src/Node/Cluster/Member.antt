-- ===== src/Node/Cluster/Member.antt =====
-- What a worker does for clusters: processFormCluster and processDisbandCluster of node/cluster.go, and
-- createRaftCluster, createPBFTCluster and leaveCluster of node/consensus.go.
pub mod LifeCycle
use b7s.Common.{
  Bool, not, List, [], ◌∷◌, ◌++◌, Option, none, some, select, if◌then◌else◌, ◌==◌, ◌&&◌, length,
  nat_beq,
}
use b7s.Common.Text.{Text, text_eq, codes}
use b7s.Common.Map.{Map, lookup, insert, erase}
use b7s.Common.Outcome.{Outcome, ok, err}
use b7s.Models.{PeerId, TraceInfo}
use b7s.Models.Code
use b7s.Models.Code.{Code}
use b7s.Models.Consensus.{ConsensusType, no_consensus, raft, pbft}
use b7s.Pbft.Config.{
  MetadataProvider, with_post_processors, with_trace_info, with_metadata_provider,
}
use b7s.Pbft.State.{Replica}
use b7s.Pbft.Action
use b7s.Pbft.Process.{new_replica}

-- `peer.AddrInfo`.
pub record AddrInfo : Type 0 where
  pub id : PeerId
  pub addrs : List Text

-- `request.FormCluster` and `response.FormCluster`.
pub record FormCluster : Type 0 where
  pub trace_info : TraceInfo
  pub request_id : Text
  pub peers : List PeerId
  pub consensus : ConsensusType
  pub connection_info : List AddrInfo

pub record FormClusterResponse : Type 0 where
  pub trace_info : TraceInfo
  pub request_id : Text
  pub code : Code
  pub consensus : ConsensusType

-- `FormCluster.Response` with `WithConsensus`.
abbrev pub response : FormCluster → Code → FormClusterResponse
response req code = record {
  trace_info = req.trace_info;
  request_id = req.request_id;
  code = code;
  consensus = req.consensus;
}

-- A replica of one of the two protocols. That of Raft is the library's.
pub data Cluster (R : Type 0) : Type 0 where
  raft_cluster : R → Cluster R
  pbft_cluster : Replica → Cluster R

-- The worker's part of the node that clusters touch, with the confirmations it has tried to send.
pub record Member (R : Type 0) : Type 0 where
  pub clusters : Map Text (Cluster R)
  pub peerstore : List AddrInfo
  pub sent : List (PeerId × FormClusterResponse)

pub record Surroundings (R : Type 0) : Type 0 where
  pub own : PeerId
  pub byzantine : Bool
  pub connected : PeerId → Bool
  pub context_trace : TraceInfo
  pub metadata_provider : MetadataProvider
  pub new_raft : FormCluster → Option R
  pub delivers : PeerId → FormClusterResponse → Bool
  -- Whether the shutdown of the replica is without an error.
  pub shuts_down : Cluster R → Bool

pub data MemberError : Type 0 where
  invalid_consensus replica_not_created confirmation_not_sent : MemberError
  no_such_cluster shutdown_failed : MemberError

module _ {R : Type 0} (env : Surroundings R) where
  -- The new replica is kept, and then its creation is confirmed.
  unfoldable pub join :
      PeerId
      → FormCluster
      → Option (Cluster R)
      → Member R
      → Outcome MemberError (Unit {0}) × Member R
  join from req none m = (err replica_not_created, m)
  join from req (some cluster) m =
      let res = response req Code.ok in
      (
        if env.delivers from res then ok tt else err confirmation_not_sent,
        record m {
          clusters = insert req.request_id cluster m.clusters;
          sent = (from, res) ∷ m.sent;
        },
      )

  unfoldable pub create_raft_cluster : FormCluster → Option (Cluster R)
  create_raft_cluster req = elim (env.new_raft req) [
    | none ↦ none
    | some rh ↦ some (raft_cluster rh)
  ]

  -- The post processor puts the result into the cache of responses.
  unfoldable pub create_pbft_cluster : FormCluster → Option (Cluster R)
  create_pbft_cluster req =
      let trace =
        if nat_beq (length env.context_trace) 0 then req.trace_info else env.context_trace in
      elim (new_replica env.own env.byzantine req.peers (
        with_post_processors (codes "cache" ∷ [])
        ∷ with_trace_info trace
        ∷ with_metadata_provider env.metadata_provider
        ∷ [])) [ Action.err e ↦ none | Action.ok ph ↦ some (pbft_cluster ph) ]

  -- The fellow replicas that the host is not connected to.
  abbrev pub unknown_addresses : List AddrInfo → List AddrInfo
  unknown_addresses infos =
      select (λ info. not (env.own == info.id) && not (env.connected info.id)) infos

  unfoldable pub process_form_cluster :
      PeerId → FormCluster → Member R → Outcome MemberError (Unit {0}) × Member R
  process_form_cluster from req m =
      let known = record m { peerstore = m.peerstore ++ unknown_addresses req.connection_info } in
      elim req.consensus [
        | raft ↦ join from req (create_raft_cluster req) known
        | pbft ↦ join from req (create_pbft_cluster req) known
        | no_consensus ↦ (err invalid_consensus, known)
      ]

  -- The wait for the result of the request comes before, and changes nothing whatever comes of it.
  unfoldable pub leave_cluster : Text → Member R → Outcome MemberError (Unit {0}) × Member R
  leave_cluster request_id m = elim (lookup request_id m.clusters) [
    | none ↦ (err no_such_cluster, m)
    | some cluster ↦
        if env.shuts_down cluster
        then (ok tt, record m { clusters = erase request_id m.clusters })
        else (err shutdown_failed, m)
  ]
