-- ===== src/Pbft/Request.antt =====
-- consensus/pbft/request.go.
use b7s.Common.{false, none, some, if◌then◌else◌, not}
use b7s.Common.Text.{Text, text_eq}
use b7s.Common.Map.{lookup, insert, has}
use b7s.Models.{PeerId}
use b7s.Pbft.Message.{request, Request}
use b7s.Pbft.State.{Replica}
use b7s.Pbft.Action.{
  Env, Action, Done, gets, or_raise, lift, modify, raise_if, ◌>>=◌, ◌>>◌, no_public_key,
  already_queued,
}
use b7s.Pbft.Signature.{get_digest, verify_request}
use b7s.Pbft.Messaging.{send}
use b7s.Pbft.Timer.{start_request_timer}
use b7s.Pbft.Conditions.{is_primary}
use b7s.Pbft.PrePrepare.{send_pre_prepare}

abbrev pub save_request : Text → Request → Replica → Replica
save_request digest req r = record r {
  state = record r.state { requests = insert digest req r.requests };
}

abbrev pub queue_request : Text → Request → Replica → Replica
queue_request digest req r = record r {
  state = record r.state {
    requests = insert digest req r.requests;
    pending = insert digest req r.pending;
  };
}

-- The backup keeps the request and starts its timer.
unfoldable pub drop_request : Text → Request → Action Done
drop_request digest req = do modify (start_request_timer false); modify (save_request digest req)

unfoldable pub queue_and_propose : Env → Text → Request → Action Done
queue_and_propose env digest req = do
  pending ← gets (λ r. has (lookup digest r.pending))
  raise_if pending already_queued
  modify (queue_request digest req)
  send_pre_prepare env req

unfoldable pub process_new_request : Env → Text → Request → Action Done
process_new_request env digest req r =
    if not (is_primary r) then drop_request digest req r else queue_and_propose env digest req r

unfoldable pub process_verified_request : Env → Request → Action Done
process_verified_request env req r = elim (lookup req.id r.executions) [
  | some result ↦ send env req.origin result r
  | none ↦ process_new_request env (get_digest env (request req)) req r
]

unfoldable pub process_request : Env → PeerId → Request → Action Done
process_request env from req = do
  key ← or_raise (env.extract_public_key req.origin) no_public_key
  lift (verify_request env req.execute key)
  process_verified_request env req
