-- ===== src/Node/Cluster/Member/LifeCycle.antt =====
-- A cluster from its formation to its end.
use b7s.Common.{
  false, [], ◌∷◌, ◌++◌, nat_beq, Option, none, some, ◌≡◌, refl, subst, sym, ap, arith, Option-cases,
  Bool-cases, inl, inr, ltb, length, ◌≤◌, ◌⊎◌, if◌then◌else◌, ◌==◌, beq_refl,
}
use b7s.Common.Text.{Text, text_eq, codes}
use b7s.Common.Map.{lookup, insert, erase, lookup-insert, lookup-erase}
use b7s.Common.Outcome.{ok}
use b7s.Models.{PeerId}
use b7s.Models.Consensus.{ConsensusType, no_consensus, raft, pbft}
use b7s.Pbft.Config.{
  minimum_replica_count, default_config, with_post_processors, with_trace_info,
  with_metadata_provider,
}
use b7s.Pbft.State.{Replica, new_state}
use b7s.Pbft.Core.{new_pbft_core}
use b7s.Pbft.Process.{new_replica, apply_settings}
use b7s.Node.Cluster.Member.{
  FormCluster, Cluster, raft_cluster, pbft_cluster, Member, Surroundings, join, create_raft_cluster,
  create_pbft_cluster, process_form_cluster, leave_cluster, unknown_addresses,
}

ConsensusType-cases : (c : ConsensusType) → (c ≡ raft) ⊎ (c ≡ pbft) ⊎ (c ≡ no_consensus)
ConsensusType-cases raft = inl refl
ConsensusType-cases pbft = inr (inl refl)
ConsensusType-cases no_consensus = inr (inr refl)

some_injective : {A : Type 0} (a b : A) → some a ≡ some b → a ≡ b
some_injective a b h = cc

module _ {R : Type 0} (env : Surroundings R) where
  -- The replica that a request asks for: of its protocol, and for PBFT over its peers, at least four.
  abbrev pub Serves : FormCluster → Cluster R → Type 0
  Serves req (raft_cluster rh) = (req.consensus ≡ raft) × (env.new_raft req ≡ some rh)
  Serves req (pbft_cluster ph) =
      (req.consensus ≡ pbft) × (ph.peers ≡ req.peers) × (minimum_replica_count ≤ length req.peers)

  -- The new replica of a request with enough peers.
  abbrev created : FormCluster → Replica
  created req = record {
    core = new_pbft_core (length req.peers);
    state = new_state;
    cfg =
        apply_settings
          (with_post_processors (codes "cache" ∷ [])
            ∷ with_trace_info
                (if nat_beq (length env.context_trace) 0 then req.trace_info else env.context_trace)
            ∷ with_metadata_provider env.metadata_provider
            ∷ [])
          default_config;
    request_timer = none;
    id = env.own;
    peers = req.peers;
    byzantine = env.byzantine;
    history = [];
  }

  join_ok :
      (from : PeerId) (req : FormCluster) (o : Option (Cluster R)) (m mid : Member R)
      → join env from req o m ≡ (ok tt, mid)
      → (c : Cluster R) × (o ≡ some c) × (mid.clusters ≡ insert req.request_id c m.clusters)
  unfolding join
  join_ok from req none m mid h = ground arith
  join_ok from req (some c) m mid h = (c, refl, sym (ap (λ x. x.1.clusters) h))

  create_raft_cluster-Serves :
      (req : FormCluster) (c : Cluster R)
      → req.consensus ≡ raft
      → create_raft_cluster env req ≡ some c
      → Serves req c
  unfolding create_raft_cluster
  create_raft_cluster-Serves req c k h = elim (Option-cases (env.new_raft req)) [
    | inl n ↦ ground arith
    | inr (rh, e) ↦ subst (Serves req) (made rh e) (k, e)
  ]
    where
      made : (rh : R) → env.new_raft req ≡ some rh → raft_cluster rh ≡ c
      made rh e = cc

  create_pbft_cluster-Serves :
      (req : FormCluster) (c : Cluster R)
      → req.consensus ≡ pbft
      → create_pbft_cluster env req ≡ some c
      → Serves req c
  unfolding create_pbft_cluster new_replica
  create_pbft_cluster-Serves req c k h =
      elim (Bool-cases (ltb (length req.peers) minimum_replica_count)) [
        | inl y ↦ ground arith
        | inr n ↦
            subst (Serves req) (some_injective (pbft_cluster (created req)) c (made n))
              (k, refl, ground arith)
      ]
    where
      made :
          ltb (length req.peers) minimum_replica_count ≡ false
          → some (pbft_cluster (created req)) ≡ some c
      made n = ground arith

  abbrev known : FormCluster → Member R → Member R
  known req m = record m { peerstore = m.peerstore ++ unknown_addresses env req.connection_info }

  process_form_cluster_made :
      (from : PeerId) (req : FormCluster) (m mid : Member R)
      → process_form_cluster env from req m ≡ (ok tt, mid)
      → (c : Cluster R) × Serves req c × (mid.clusters ≡ insert req.request_id c m.clusters)
  unfolding process_form_cluster
  process_form_cluster_made from req m mid h = elim (ConsensusType-cases req.consensus) [
    | inl k ↦
        let (c, e, q) =
          join_ok from req (create_raft_cluster env req) (known req m) mid (ground arith) in
        (c, create_raft_cluster-Serves req c k e, q)
    | inr (inl k) ↦
        let (c, e, q) =
          join_ok from req (create_pbft_cluster env req) (known req m) mid (ground arith) in
        (c, create_pbft_cluster-Serves req c k e, q)
    | inr (inr k) ↦ ground arith
  ]

  leave_cluster_left :
      (request_id : Text) (mid after : Member R)
      → leave_cluster env request_id mid ≡ (ok tt, after)
      → after.clusters ≡ erase request_id mid.clusters
  unfolding leave_cluster
  leave_cluster_left request_id mid after h = elim (Option-cases (lookup request_id mid.clusters)) [
    | inl n ↦ ground arith
    | inr (c, e) ↦ ground arith
  ]

  -- A worker that takes part in forming a cluster has then a replica for the request: of the protocol
  -- asked for and, for PBFT, over the peers of the request, which are at least four. When it
  -- leaves, that replica is gone, and all other clusters are what they were before both.
  pub leave-process_form_cluster :
      (from : PeerId) (req : FormCluster) (m mid after : Member R)
      → process_form_cluster env from req m ≡ (ok tt, mid)
      → leave_cluster env req.request_id mid ≡ (ok tt, after)
      → ((c : Cluster R) × (lookup req.request_id mid.clusters ≡ some c) × Serves req c)
        × ((id : Text)
            → lookup id after.clusters
              ≡ (if req.request_id == id then none else lookup id m.clusters))
  leave-process_form_cluster from req m mid after h l =
      let (c, s, q) = process_form_cluster_made from req m mid h in
      let r = leave_cluster_left req.request_id mid after l in
      (
        (
          c,
          rw q (
              ground (
                arith,
                lookup-insert req.request_id req.request_id c m.clusters,
                beq_refl req.request_id,
              )),
          s,
        ),
        λ id. ground (
          arith,
          r,
          q,
          lookup-erase req.request_id id mid.clusters,
          lookup-insert req.request_id id c m.clusters,
        ),
      )
