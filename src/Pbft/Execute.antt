-- ===== src/Pbft/Execute.antt =====
-- consensus/pbft/execute.go, but for `Execute`, which takes a request from the node itself.
use b7s.Common.{ℕ, true, List, [], ◌∷◌, none, some, ◌==◌, nat_eq, if◌then◌else◌, not}
use b7s.Common.Text.{Text, text_eq}
use b7s.Common.Map.{lookup, insert, erase, has}
use b7s.Models.{ExecuteResult, NodeResult, ExecuteResponse}
use b7s.Pbft.Message.{Request}
use b7s.Pbft.State.{Replica, executed, post_processed}
use b7s.Pbft.Action.{
  Env, Action, Done, ok, err, gets, lift, modify, modify_state, ◌>>=◌, ◌>>◌, unknown_request,
}
use b7s.Pbft.Signature.{sign_result}
use b7s.Pbft.Messaging.{log_event, is_empty, send}
use b7s.Pbft.Timer.{increment, start_request_timer, stop_request_timer}

unfoldable pub post_process : List Text → Request → NodeResult → Replica → Replica
post_process [] request nres r = r
post_process (proc ∷ procs) request nres r =
    post_process procs request nres (log_event (post_processed proc request nres) r)

abbrev pub node_result_of : Replica → Request → ExecuteResult → NodeResult
node_result_of r request res = record {
  result = res;
  signature = [];
  pbft = record { view = r.view; request_timestamp = request.timestamp; replica = r.id };
  metadata = r.cfg.metadata_provider request.execute res.result;
}

abbrev pub response_of : Replica → Request → ExecuteResult → NodeResult → ExecuteResponse
response_of r request res nres = record {
  trace_info = r.cfg.trace_info;
  request_id = request.id;
  code = res.code;
  results = (r.id, nres) ∷ [];
  cluster = record { main = []; peers = [] };
  error_message = [];
}

-- From the removal of the request from the outstanding ones to the note of its sequence number.
unfoldable pub run_request : ℕ → Text → Request → Replica → Replica
run_request sequence digest request r =
    let cleared = record r { state = record r.state { pending = erase digest r.pending } } in
    let called = log_event (executed sequence request) cleared in
    let stopped = stop_request_timer called in
    let restarted =
      if is_empty stopped.pending then stopped else start_request_timer true stopped in
    record restarted { state = record restarted.state { last_executed = sequence } }

-- The result is signed, saved, and sent to the origin.
unfoldable pub report_result : Env → Request → ExecuteResult → Action Done
report_result env request res = do
  unsigned ← gets (λ r. node_result_of r request res)
  nres ← lift (sign_result env unsigned)
  msg ← gets (λ r. response_of r request res nres)
  modify_state (λ s. record s { executions = insert request.id msg s.executions })
  modify (λ r. post_process r.cfg.post_processors request nres r)
  send env request.origin msg

-- The request is run if it is pending and the next in order.
unfoldable pub execute_pending : Env → ℕ → Text → Request → Action Done
execute_pending env sequence digest request r =
    if not (has (lookup digest r.pending))
    then (ok tt, r)
    else if not (sequence == increment r.last_executed)
    then (ok tt, r)
    else let res = env.execute_function r.history request.id request.execute in
      report_result env request res (run_request sequence digest request r)

unfoldable pub execute : Env → ℕ → ℕ → Text → Action Done
execute env view sequence digest r = elim (lookup digest r.requests) [
  | none ↦ (err unknown_request, r)
  | some request ↦ execute_pending env sequence digest request r
]
