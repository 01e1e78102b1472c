-- ===== src/Node/Cluster.antt =====
-- The clusters for consensus (node/cluster.go, node/consensus.go): how the head node forms one, and how a
-- worker joins and leaves. Each wait for a confirmation has its reply, or none after the time.
pub mod Formed
pub mod Member
use b7s.Common.{
  Bool, true, false, List, [], ◌∷◌, Option, none, some, length, nat_beq, if◌then◌else◌, ◌==◌,
}
use b7s.Common.Text.{Text, text_eq}
use b7s.Common.Map.{Map, insert}
use b7s.Common.Outcome.{Outcome, ok, err}
use b7s.Models.{PeerId}
use b7s.Models.Code
use b7s.Models.Code.{Code}
use b7s.Node.Sending.{send_to_many}

pub data ClusterError : Type 0 where
  request_not_sent some_did_not_join : ClusterError

abbrev pub is_ok : Option Code → Bool
is_ok none = false
is_ok (some code) = code == Code.ok

-- The set `bootstrapped`, of the texts of the peer IDs.
unfoldable pub bootstrapped :
    (PeerId → Text) → (PeerId → Option Code) → List PeerId → Map Text (Unit {0})
bootstrapped peer_text replies [] = []
bootstrapped peer_text replies (replica ∷ replicas) =
    let joined = bootstrapped peer_text replies replicas in
    if is_ok (replies replica) then insert (peer_text replica) tt joined else joined

unfoldable pub form_cluster :
    (PeerId → Text → Bool)
    → (PeerId → Text)
    → (PeerId → Option Code)
    → Option Text
    → List PeerId
    → Outcome ClusterError (Unit {0})
form_cluster delivers peer_text replies payload replicas =
    elim (send_to_many delivers replicas payload true) [
      | err e ↦ err request_not_sent
      | ok done ↦
          if nat_beq (length (bootstrapped peer_text replies replicas)) (length replicas)
          then ok tt
          else err some_did_not_join
    ]
