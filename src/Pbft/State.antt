-- ===== src/Pbft/State.antt =====
-- The state of one replica: the struct of consensus/pbft/pbft.go with what it embeds,
-- consensus/pbft/state.go and consensus/pbft/receipts.go. The locks, the log, the tracer and the
-- metrics are left out: every handler runs from start to end under the state lock.
use b7s.Common.{ℕ, Bool, true, List, [], Option}
use b7s.Common.Text.{Text}
use b7s.Common.Map.{Map}
use b7s.Models.{PeerId, NodeResult, ExecuteResponse}
use b7s.Pbft.Core.{PbftCore, MessageId}
use b7s.Pbft.Message.{Request, PrePrepare, Prepare, Commit, ViewChange, Payload}
use b7s.Pbft.Config.{Config}

pub record PrepareReceipts : Type 0 where
  pub m : Map PeerId Prepare

pub record CommitReceipts : Type 0 where
  pub m : Map PeerId Commit

pub record ViewChangeReceipts : Type 0 where
  pub m : Map PeerId ViewChange

abbrev pub new_prepare_receipts : PrepareReceipts
new_prepare_receipts = record { m = [] }

abbrev pub new_commit_receipts : CommitReceipts
new_commit_receipts = record { m = [] }

abbrev pub new_view_change_receipts : ViewChangeReceipts
new_view_change_receipts = record { m = [] }

pub record ReplicaState : Type 0 where
  pub active_view : Bool
  pub last_executed : ℕ
  pub requests : Map Text Request
  pub pending : Map Text Request
  pub pre_prepares : Map MessageId PrePrepare
  pub prepares : Map MessageId PrepareReceipts
  pub commits : Map MessageId CommitReceipts
  pub view_changes : Map ℕ ViewChangeReceipts
  pub executions : Map Text ExecuteResponse

abbrev pub new_state : ReplicaState
new_state = record {
  active_view = true;
  last_executed = 0;
  requests = [];
  pending = [];
  pre_prepares = [];
  prepares = [];
  commits = [];
  view_changes = [];
  executions = [];
}

-- What the replica has asked of the outside, and for a send whether it succeeded.
pub data Event : Type 0 where
  -- To a peer, over the protocol of the cluster or over that of the node.
  sent : PeerId → Payload → Bool → Event
  -- `ExecuteFunction`, with the sequence number at which it was called.
  executed : ℕ → Request → Event
  post_processed : Text → Request → NodeResult → Event
  -- The timer was set, for this view.
  timer_started : ℕ → Event

-- `requestTimer` is the view that the callback will ask for; a timer that has fired is still there.
pub record Replica : Type 0 where
  pub core : PbftCore
  pub open core use *
  pub state : ReplicaState
  pub open state use *
  pub cfg : Config
  pub request_timer : Option ℕ
  pub id : PeerId
  pub peers : List PeerId
  pub byzantine : Bool
  -- Newest first.
  pub history : List Event
