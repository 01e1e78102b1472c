-- ===== src/Pbft/Prepare.antt =====
-- consensus/pbft/prepare.go.
use b7s.Common.{[], Option, none, some, if◌then◌else◌, not, ◌==◌, nat_eq}
use b7s.Common.Text.{text_eq}
use b7s.Common.Map.{lookup, insert, has}
use b7s.Models.{PeerId}
use b7s.Pbft.Core.{get_message_id, message_id_eq}
use b7s.Pbft.Message.{PrePrepare, Prepare, no_base, prepare_signable}
use b7s.Pbft.State.{Replica, PrepareReceipts, new_prepare_receipts}
use b7s.Pbft.Action.{Env, Action, Done, ok, gets, lift, raise_if, modify, ◌>>=◌, ◌>>◌, invalid_view}
use b7s.Pbft.Signature.{sign, verify_signature}
use b7s.Pbft.Messaging.{broadcast}
use b7s.Pbft.Conditions.{primary_replica_id}
use b7s.Pbft.Commit.{maybe_send_commit}

abbrev pub prepares_at : Option PrepareReceipts → PrepareReceipts
prepares_at none = new_prepare_receipts
prepares_at (some prepares) = prepares

-- The first prepare of a replica is kept.
unfoldable pub record_prepare_receipt : PeerId → Prepare → Replica → Replica
record_prepare_receipt replica prepare r =
    let msg_id = get_message_id prepare.view prepare.sequence_number in
    let prepares = prepares_at (lookup msg_id r.prepares) in
    let kept : PrepareReceipts =
      if has (lookup replica prepares.m)
      then prepares
      else record { m = insert replica prepare prepares.m } in
    record r { state = record r.state { prepares = insert msg_id kept r.prepares } }

unfoldable pub send_prepare : Env → PrePrepare → Action Done
send_prepare env pre_prepare = do
  let prepare : Prepare = record {
    base = no_base;
    view = pre_prepare.view;
    sequence_number = pre_prepare.sequence_number;
    digest = pre_prepare.digest;
    signature = [];
  }
  signed ← lift (sign env prepare)
  traced ← broadcast env signed
  modify (λ r. record_prepare_receipt r.id traced r)

-- The rest of `processPrepare`, for a replica that is not the primary.
unfoldable pub accept_prepare : Env → PeerId → Prepare → Action Done
accept_prepare env replica prepare = do
  view ← gets (λ r. r.view)
  raise_if (not (prepare.view == view)) invalid_view
  lift (verify_signature env prepare replica)
  modify (record_prepare_receipt replica prepare)
  maybe_send_commit env prepare.view prepare.sequence_number prepare.digest

unfoldable pub process_prepare : Env → PeerId → Prepare → Action Done
unfolding accept_prepare
process_prepare env replica prepare r =
    if replica == primary_replica_id r then (ok tt, r) else accept_prepare env replica prepare r
