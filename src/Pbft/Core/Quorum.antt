-- ===== src/Pbft/Core/Quorum.antt =====
-- The sizes of consensus/pbft/core.go: how many faults a cluster bears, and what two quorums share.
pub mod Overlap
use b7s.Common.{ℕ, ◌+◌, ◌*◌, ◌-◌, ◌%◌, ◌≤◌, ◌<◌, ◌≡◌, ◌≢◌, ◌&&◌, List, arith, length, select}
use b7s.Common.Text.{text_eq}
use b7s.Common.Map.{Map, lookup, has}
use b7s.Common.Map.Count.{Distinct, KeysIn, length-le-keys, length-select_overlap}
use b7s.Models.{PeerId}
use b7s.Pbft.Core.{
  calc_byzantine_tolerance, new_pbft_core, prepare_quorum, commit_quorum, min_cluster_results,
}

-- In a cluster of n replicas, n at least 1, the tolerance is the largest f with 3f + 1 ≤ n.
calc_byzantine_tolerance_largest :
    (n : ℕ)
    → 1 ≤ n
    → (3 * calc_byzantine_tolerance n + 1 ≤ n) × (n < 3 * (calc_byzantine_tolerance n + 1) + 1)
unfolding calc_byzantine_tolerance
calc_byzantine_tolerance_largest n h = ground arith

-- In a cluster of n replicas, n at least 1, the replicas that are not faulty make up a commit
-- quorum, that is one more than a prepare quorum, and the results that a client asks for.
quorums_reachable :
    (n : ℕ)
    → 1 ≤ n
    → let c = new_pbft_core n in
      (commit_quorum c ≤ n - c.f)
      × (commit_quorum c ≡ prepare_quorum c + 1)
      × (min_cluster_results n ≤ commit_quorum c - c.f)
unfolding new_pbft_core commit_quorum prepare_quorum min_cluster_results calc_byzantine_tolerance
quorums_reachable n h = ground arith

abbrev pub IsQuorum : {V : Type 0} → List PeerId → Map PeerId V → Type 0
IsQuorum peers m =
    Distinct m × KeysIn peers m × (commit_quorum (new_pbft_core (length peers)) ≤ length m)

abbrev pub shared : {V : Type 0} → List PeerId → Map PeerId V → Map PeerId V → List PeerId
shared peers a b = select (λ p. has (lookup p a) && has (lookup p b)) peers

-- If the number of peers is 1 modulo 3, then any two commit quorums of receipts share more peers
-- than may be faulty.
pub commit_quorums_overlap :
    {V : Type 0} (peers : List PeerId) (a b : Map PeerId V)
    → length peers % 3 ≡ 1
    → IsQuorum peers a
    → IsQuorum peers b
    → calc_byzantine_tolerance (length peers) + 1 ≤ length (shared peers a b)
unfolding commit_quorum new_pbft_core calc_byzantine_tolerance
commit_quorums_overlap peers a b h qa qb = ground (
  arith,
  length-le-keys a peers qa.0 qa.1,
  length-le-keys b peers qb.0 qb.1,
  length-select_overlap (λ p. has (lookup p a)) (λ p. has (lookup p b)) peers,
)
