-- ===== src/Pbft/Cleanup.antt =====
-- `cleanupState` (consensus/pbft/pbft.go) and consensus/pbft/outstanding.go.
pub mod Lookup
use b7s.Common.{ℕ, Bool, List, [], ◌∷◌, ltb, not, if◌then◌else◌, select}
use b7s.Common.Text.{Text, text_eq}
use b7s.Common.Map.{Map, lookup, has}
use b7s.Models.{ExecuteResponse}
use b7s.Pbft.Core.{MessageId}
use b7s.Pbft.Message.{Request}
use b7s.Pbft.State.{Replica}

-- The entries for the threshold view and the later ones.
unfoldable pub discard_below {ℓ} : {V : Type ℓ} → ℕ → Map MessageId V → Map MessageId V
discard_below threshold_view = select (λ e. not (ltb e.0.view threshold_view))

unfoldable pub cleanup_state : ℕ → Replica → Replica
cleanup_state threshold_view r = record r {
  state = record r.state {
    pending = [];
    pre_prepares = discard_below threshold_view r.pre_prepares;
    prepares = discard_below threshold_view r.prepares;
    commits = discard_below threshold_view r.commits;
  };
}

-- The requests that are not in the results by their ID.
unfoldable pub not_executed : Map Text ExecuteResponse → Map Text Request → List Request
not_executed executions [] = []
not_executed executions ((digest, request) ∷ rest) =
    let requests = not_executed executions rest in
    if has (lookup request.id executions) then requests else request ∷ requests

unfoldable pub outstanding_requests : Replica → List Request
outstanding_requests r = not_executed r.executions r.requests
