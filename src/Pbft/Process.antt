-- ===== src/Pbft/Process.antt =====
-- The entry points of a replica (consensus/pbft/pbft.go, consensus/pbft/execute.go): its creation, a
-- message from a peer, a request from the node, and the timer.
use b7s.Common.{
  ℕ, Bool, true, false, List, [], ◌∷◌, none, ltb, if◌then◌else◌, length, nat_eq, ◌==◌, ◌||◌,
}
use b7s.Common.Text.{Text, text_eq}
use b7s.Models.{PeerId, ExecuteRequest}
use b7s.Pbft.Core.{new_pbft_core}
use b7s.Pbft.Message.{
  Message, request, pre_prepare, prepare, commit, view_change, new_view, no_base,
}
use b7s.Pbft.Config.{Config, Setting, default_config, minimum_replica_count}
use b7s.Pbft.State.{Replica, new_state}
use b7s.Pbft.Action.{
  Env, Result, Action, Done, ok, err, gets, lift, raise_if, ◌>>=◌, ◌>>◌, too_small_cluster,
  byzantine_replica, in_active_view, view_change_in_progress,
}
use b7s.Pbft.Timer.{stop_request_timer}
use b7s.Pbft.PrePrepare.{process_pre_prepare}
use b7s.Pbft.Prepare.{process_prepare}
use b7s.Pbft.Commit.{process_commit}
use b7s.Pbft.Request.{process_request}
use b7s.Pbft.ViewChange.{start_view_change}
use b7s.Pbft.NewView.{process_view_change, process_new_view}

unfoldable pub apply_settings : List Setting → Config → Config
apply_settings [] cfg = cfg
apply_settings (setting ∷ settings) cfg = apply_settings settings (setting cfg)

-- `byzantine` is what the environment variable says, and `own` the identity of the host.
unfoldable pub new_replica : PeerId → Bool → List PeerId → List Setting → Result Replica
new_replica own byzantine peers settings =
    let total = length peers in
    if ltb total minimum_replica_count
    then err too_small_cluster
    else ok (record {
      core = new_pbft_core total;
      state = new_state;
      cfg = apply_settings settings default_config;
      request_timer = none;
      id = own;
      peers = peers;
      byzantine = byzantine;
      history = [];
    })

-- The values of the environment variable, in lower case, that make a replica byzantine.
unfoldable pub is_byzantine : Text → Bool
is_byzantine env =
    (env == (b'y' ∷ []))
    || ((env == (b'y' ∷ b'e' ∷ b's' ∷ []))
        || ((env == (b't' ∷ b'r' ∷ b'u' ∷ b'e' ∷ [])) || (env == (b'1' ∷ []))))

unfoldable pub is_message_allowed : Replica → Message → Result Done
is_message_allowed r (new_view m) = if r.active_view then err in_active_view else ok tt
is_message_allowed r (view_change m) = ok tt
is_message_allowed r m = if r.active_view then ok tt else err view_change_in_progress

unfoldable pub dispatch : Env → PeerId → Message → Action Done
dispatch env from (request m) = process_request env from m
dispatch env from (pre_prepare m) = process_pre_prepare env from m
dispatch env from (prepare m) = process_prepare env from m
dispatch env from (commit m) = process_commit env from m
dispatch env from (view_change m) = process_view_change env from m
dispatch env from (new_view m) = process_new_view env from m

-- From a message that has been unpacked.
unfoldable pub process_message : Env → PeerId → Message → Action Done
process_message env from msg = do
  byzantine ← gets (λ r. r.byzantine)
  raise_if byzantine byzantine_replica
  allowed ← gets (λ r. is_message_allowed r msg)
  lift allowed
  dispatch env from msg

abbrev pub is_known : PeerId → List PeerId → Bool
is_known from [] = false
is_known from (p ∷ ps) = if p == from then true else is_known from ps

-- The stream handler: a peer outside the cluster is not heard, and errors are logged.
unfoldable pub handle_stream : Env → PeerId → Message → Replica → Replica
handle_stream env from msg r =
    if is_known from r.peers then (process_message env from msg r).1 else r

-- `Execute`, the entry point for the node's own requests.
unfoldable pub execute_from_node : Env → PeerId → Text → ℕ → ExecuteRequest → Action Done
execute_from_node env client request_id timestamp req = process_request env client (record {
  base = no_base;
  id = request_id;
  timestamp = timestamp;
  origin = client;
  execute = req;
})

-- The timer's callback.
unfoldable pub timer_fired : Env → ℕ → Replica → Replica
timer_fired env target_view r = (start_view_change env target_view r).1

unfoldable pub shutdown : Replica → Replica
shutdown = stop_request_timer
