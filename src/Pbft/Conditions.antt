-- ===== src/Pbft/Conditions.antt =====
-- consensus/pbft/conditions.go, and who is the primary (consensus/pbft/pbft.go).
pub mod Counts
use b7s.Common.{
  ℕ, Bool, false, List, [], ◌∷◌, zero, suc, none, some, ◌==◌, nat_eq, leb, if◌then◌else◌, length,
}
use b7s.Common.Text.{Text, text_eq}
use b7s.Common.Map.{lookup, has}
use b7s.Models.{PeerId}
use b7s.Pbft.Core.{current_primary, prepare_quorum, commit_quorum, get_message_id, message_id_eq}
use b7s.Pbft.State.{Replica}

-- `peers[i]`; the source panics out of range, which an index modulo the number of peers never is.
abbrev pub peer_at : List PeerId → ℕ → PeerId
peer_at [] i = []
peer_at (p ∷ ps) zero = p
peer_at (p ∷ ps) (suc i) = peer_at ps i

unfoldable pub primary_replica_id : Replica → PeerId
primary_replica_id r = peer_at r.peers (current_primary r.core)

unfoldable pub is_primary : Replica → Bool
unfolding primary_replica_id
is_primary r = r.id == primary_replica_id r

unfoldable pub pre_prepared : Replica → ℕ → ℕ → Text → Bool
pre_prepared r view sequence_no digest =
    if has (lookup digest r.requests)
    then elim (lookup (get_message_id view sequence_no) r.pre_prepares) [
      | none ↦ false
      | some pre_prepare ↦ pre_prepare.digest == digest
    ]
    else false

unfoldable pub prepared : Replica → ℕ → ℕ → Text → Bool
prepared r view sequence_no digest =
    if has (lookup digest r.requests)
    then if pre_prepared r view sequence_no digest
      then elim (lookup (get_message_id view sequence_no) r.prepares) [
        | none ↦ false
        | some prepares ↦ leb (prepare_quorum r.core) (length prepares.m)
      ]
      else false
    else false

unfoldable pub committed : Replica → ℕ → ℕ → Text → Bool
committed r view sequence_no digest =
    if prepared r view sequence_no digest
    then elim (lookup (get_message_id view sequence_no) r.commits) [
      | none ↦ false
      | some commits ↦ leb (commit_quorum r.core) (length commits.m)
    ]
    else false

unfoldable pub view_change_ready : Replica → ℕ → Bool
view_change_ready r view = elim (lookup view r.view_changes) [
  | none ↦ false
  | some vc ↦ leb (commit_quorum r.core) (length vc.m)
]
