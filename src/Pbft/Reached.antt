-- ===== src/Pbft/Reached.antt =====
-- The replicas of a cluster: as `NewReplica` makes them, and after any inputs.
use b7s.Common.{Bool, List, ◌≡◌, refl, ◌≤◌, nat_eq, arith, length, In, []}
use b7s.Common.Text.{text_eq}
use b7s.Common.Map.Values.{empty-Values}
use b7s.Models.{PeerId}
use b7s.Pbft.Core.{message_id_eq, new_pbft_core, calc_byzantine_tolerance}
use b7s.Pbft.Config.{Setting}
use b7s.Pbft.State.{Replica}
use b7s.Pbft.Action.{Env, ok}
use b7s.Pbft.Process.{new_replica}
use b7s.Pbft.Evolve.Runs.{Input, run}
use b7s.Pbft.Receipts.Kept.{run-Genuine}
use b7s.Pbft.Receipts.Genuine.{IsGenuine, PreparesAt, CommitsAt, ViewChangesAt}

fresh_fields :
    (own : PeerId) (byzantine : Bool) (peers : List PeerId) (settings : List Setting) (r : Replica)
    → new_replica own byzantine peers settings ≡ ok r
    → (r.peers ≡ peers)
      × (r.id ≡ own)
      × (r.f ≡ calc_byzantine_tolerance (length peers))
      × (1 ≤ r.f)
      × (r.prepares ≡ [])
      × (r.commits ≡ [])
      × (r.view_changes ≡ [])
unfolding new_replica new_pbft_core calc_byzantine_tolerance
fresh_fields own byzantine peers settings r e = ground arith

fresh-Genuine :
    (r : Replica)
    → In r.id r.peers
    → r.prepares ≡ []
    → r.commits ≡ []
    → r.view_changes ≡ []
    → IsGenuine r
fresh-Genuine r i p c v = (
  i,
  rw p (empty-Values (PreparesAt r.peers)),
  rw c (empty-Values (CommitsAt r.peers)),
  rw v (empty-Values (ViewChangesAt r.peers)),
)

-- A replica of the cluster after its start and any inputs.
abbrev pub Reached : List PeerId → Replica → Type 0
Reached peers r =
    (own : PeerId) × (byzantine : Bool) × (settings : List Setting) × (start : Replica)
    × (inputs : List (Env × Input)) × In own peers
    × (new_replica own byzantine peers settings ≡ ok start)
    × (r ≡ run inputs start)

pub Reached-Genuine :
    (peers : List PeerId) (r : Replica)
    → Reached peers r
    → (r.peers ≡ peers) × (r.f ≡ calc_byzantine_tolerance (length peers)) × (1 ≤ r.f) × IsGenuine r
Reached-Genuine peers r (own, byzantine, settings, start, inputs, i, e, at_end) =
    let (ps, id, f, big, p, c, v) = fresh_fields own byzantine peers settings start e in
    let (ps', f', w) = run-Genuine inputs start (fresh-Genuine start (rw (ps, id) i) p c v) in
    rw at_end (rw (ps', ps) refl, rw (f', f) refl, rw f' big, w)
