-- ===== src/Pbft/PrePrepare.antt =====
-- consensus/pbft/preprepare.go.
use b7s.Common.{Bool, true, false, [], ◌∷◌, if◌then◌else◌, not, ◌==◌, nat_eq, ◌&&◌}
use b7s.Common.Text.{text_eq}
use b7s.Common.Map.{Map, lookup, insert, has}
use b7s.Models.{PeerId}
use b7s.Pbft.Core.{get_message_id, MessageId, message_id_eq}
use b7s.Pbft.Message.{request, Request, PrePrepare, no_base, pre_prepare_signable}
use b7s.Pbft.State.{Replica}
use b7s.Pbft.Action.{
  Env, Action, Done, ok, err, gets, lift, raise_if, modify, ◌>>=◌, ◌>>◌, invalid_view,
  dropped_pre_prepare, conflicting_pre_prepare,
}
use b7s.Pbft.Signature.{get_digest, sign, verify_signature}
use b7s.Pbft.Messaging.{broadcast}
use b7s.Pbft.Timer.{increment, start_request_timer}
use b7s.Pbft.Conditions.{is_primary, primary_replica_id, pre_prepared}
use b7s.Pbft.Commit.{maybe_send_commit}
use b7s.Pbft.Prepare.{send_prepare}

-- The same view and the same digest, with another sequence number.
abbrev pub is_conflict : PrePrepare → PrePrepare → Bool
is_conflict pre_prepare pp =
    (pp.view == pre_prepare.view)
    && ((pp.digest == pre_prepare.digest)
        && not (pp.sequence_number == pre_prepare.sequence_number))

unfoldable pub conflicting_in : PrePrepare → Map MessageId PrePrepare → Bool
conflicting_in pre_prepare [] = false
conflicting_in pre_prepare ((id, pp) ∷ rest) =
    if is_conflict pre_prepare pp then true else conflicting_in pre_prepare rest

unfoldable pub conflicting_pre_prepare_exists : Replica → PrePrepare → Bool
conflicting_pre_prepare_exists r pre_prepare = conflicting_in pre_prepare r.pre_prepares

abbrev pub save_pre_prepare : PrePrepare → Replica → Replica
save_pre_prepare msg r = record r {
  state = record r.state {
    pre_prepares = insert (get_message_id msg.view msg.sequence_number) msg r.pre_prepares;
  };
}

abbrev pub new_pre_prepare : Env → Replica → Request → PrePrepare
new_pre_prepare env r req = record {
  base = no_base;
  view = r.view;
  sequence_number = r.sequence;
  request = req;
  digest = get_digest env (request req);
  signature = [];
}

-- What the primary does.
unfoldable pub propose : Env → Request → Action Done
propose env req = do
  modify (λ r. record r { core = record r.core { sequence = increment r.sequence } })
  msg ← gets (λ r. new_pre_prepare env r req)
  conflict ← gets (λ r. conflicting_pre_prepare_exists r msg)
  raise_if conflict dropped_pre_prepare
  signed ← lift (sign env msg)
  traced ← broadcast env signed
  modify (save_pre_prepare traced)

unfoldable pub send_pre_prepare : Env → Request → Action Done
send_pre_prepare env req r = if not (is_primary r) then (ok tt, r) else propose env req r

-- The pre-prepare and its request are saved, and the timer runs.
unfoldable pub note_pre_prepare : PrePrepare → Replica → Replica
note_pre_prepare msg r =
    let saved = save_pre_prepare msg r in
    start_request_timer false (record saved {
      state = record saved.state {
        requests = insert msg.digest msg.request saved.requests;
        pending = insert msg.digest msg.request saved.pending;
      };
    })

-- The end of `processPrePrepare`, once the pre-prepare is saved.
unfoldable pub answer_pre_prepare : Env → PrePrepare → Action Done
answer_pre_prepare env msg r =
    if not (pre_prepared r msg.view msg.sequence_number msg.digest)
    then (ok tt, r)
    else (send_prepare env msg >> maybe_send_commit env msg.view msg.sequence_number msg.digest) r

-- The pre-prepare is saved unless its place is taken.
unfoldable pub save_if_free : Env → PrePrepare → Action Done
save_if_free env msg r =
    if has (lookup (get_message_id msg.view msg.sequence_number) r.pre_prepares)
    then (err conflicting_pre_prepare, r)
    else answer_pre_prepare env msg (note_pre_prepare msg r)

unfoldable pub accept_pre_prepare : Env → PrePrepare → Action Done
accept_pre_prepare env msg = do
  view ← gets (λ r. r.view)
  raise_if (not (msg.view == view)) invalid_view
  leader ← gets primary_replica_id
  lift (verify_signature env msg leader)
  save_if_free env msg

unfoldable pub process_pre_prepare : Env → PeerId → PrePrepare → Action Done
process_pre_prepare env replica msg r =
    if is_primary r
    then (ok tt, r)
    else if not (replica == primary_replica_id r)
    then (ok tt, r)
    else accept_pre_prepare env msg r
