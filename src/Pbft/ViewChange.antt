-- ===== src/Pbft/ViewChange.antt =====
-- consensus/pbft/view_change.go, but for `processViewChange`, which starts a new view.
pub mod Validity
pub mod Joining
use b7s.Common.{
  ℕ, ◌+◌, Bool, true, false, List, [], ◌∷◌, ◌++◌, Option, none, some, ltb, leb, ◌==◌, nat_eq,
  if◌then◌else◌, not, ◌||◌, length,
}
use b7s.Common.Text.{Text, text_eq}
use b7s.Common.Map.{Map, lookup, insert, has}
use b7s.Models.{PeerId}
use b7s.Pbft.Core.{primary, prepare_quorum, MessageId, message_id_eq}
use b7s.Pbft.Message.{
  Request, null_request, PrePrepare, Prepare, PrepareInfo, ViewChange, no_base,
  pre_prepare_signable, prepare_signable, view_change_signable,
}
use b7s.Pbft.State.{Replica, PrepareReceipts, ViewChangeReceipts, new_view_change_receipts}
use b7s.Pbft.Action.{
  Env, Error, Result, Action, Done, ok, err, gets, done, lift, raise_if, modify, ◌>>=◌, ◌>>◌,
  invalid_view_number, prepare_view_or_sequence, unmatched_pre_prepare, empty_digest,
  unmatched_digest, too_few_prepares, prepare_for_wrong_request,
}
use b7s.Pbft.Signature.{sign, verify_signature}
use b7s.Pbft.Messaging.{broadcast, is_empty}
use b7s.Pbft.Timer.{stop_request_timer}
use b7s.Pbft.Conditions.{peer_at, prepared}

abbrev pub view_changes_at : Option ViewChangeReceipts → ViewChangeReceipts
view_changes_at none = new_view_change_receipts
view_changes_at (some vcs) = vcs

-- The first view change of a replica is kept.
unfoldable pub record_view_change_receipt : PeerId → ViewChange → Replica → Replica
record_view_change_receipt replica vc r =
    let vcs = view_changes_at (lookup vc.view r.view_changes) in
    let kept : ViewChangeReceipts =
      if has (lookup replica vcs.m) then vcs else record { m = insert replica vc vcs.m } in
    record r { state = record r.state { view_changes = insert vc.view kept r.view_changes } }

-- Go's zero value, for a key that the map does not have.
abbrev pub zero_pre_prepare : PrePrepare
zero_pre_prepare = record {
  base = no_base;
  view = 0;
  sequence_number = 0;
  digest = [];
  request = null_request;
  signature = [];
}

abbrev pub pre_prepare_at : Option PrePrepare → PrePrepare
pre_prepare_at none = zero_pre_prepare
pre_prepare_at (some pp) = pp

abbrev pub prepare_info : Replica → MessageId → PrepareReceipts → Text → PrepareInfo
prepare_info r msg_id prepare digest = record {
  view = msg_id.view;
  sequence_number = msg_id.sequence;
  digest = digest;
  pre_prepare = pre_prepare_at (lookup msg_id r.pre_prepares);
  prepares = prepare.m;
}

-- The inner loop of `getPrepareSet`, over the requests.
unfoldable pub prepared_requests :
    Replica → MessageId → PrepareReceipts → Map Text Request → List PrepareInfo
prepared_requests r msg_id prepare [] = []
prepared_requests r msg_id prepare ((digest, request) ∷ rest) =
    let out = prepared_requests r msg_id prepare rest in
    if prepared r msg_id.view msg_id.sequence digest
    then prepare_info r msg_id prepare digest ∷ out
    else out

unfoldable pub prepare_set_from : Replica → Map MessageId PrepareReceipts → List PrepareInfo
prepare_set_from r [] = []
prepare_set_from r ((msg_id, prepare) ∷ rest) =
    prepared_requests r msg_id prepare r.requests ++ prepare_set_from r rest

unfoldable pub get_prepare_set : Replica → List PrepareInfo
get_prepare_set r = prepare_set_from r r.prepares

abbrev pub view_change_for : Replica → ℕ → ViewChange
view_change_for r view = record {
  base = no_base;
  view = view;
  prepares = get_prepare_set r;
  signature = [];
}

abbrev pub enter_view_change : ℕ → Replica → Replica
enter_view_change view r =
    let stopped = stop_request_timer r in
    record stopped {
      core = record stopped.core { view = view };
      state = record stopped.state { active_view = false };
    }

unfoldable pub announce_view_change : Env → Action Done
announce_view_change env = do
  vc ← gets (λ r. view_change_for r r.view)
  signed ← lift (sign env vc)
  traced ← broadcast env signed
  modify (λ r. record_view_change_receipt r.id traced r)

unfoldable pub start_view_change : Env → ℕ → Action Done
start_view_change env view r =
    if leb view r.view then (ok tt, r) else announce_view_change env (enter_view_change view r)

infixl 5 ◌then_check◌
abbrev pub ◌then_check◌ : Result Done → Result Done → Result Done
(ok _) then_check next = next
(err e) then_check next = err e

abbrev pub refuse_if : Bool → Error → Result Done
refuse_if true e = err e
refuse_if false e = ok tt

-- The prepares that come with one certificate.
unfoldable pub valid_prepares : Env → PrepareInfo → Map PeerId Prepare → Result Done
valid_prepares env info [] = ok tt
valid_prepares env info ((replica, pp) ∷ rest) =
    refuse_if
      (not (pp.view == info.view)
        || (not (pp.sequence_number == info.sequence_number) || not (pp.digest == info.digest)))
      prepare_for_wrong_request
    then_check verify_signature env pp replica
    then_check valid_prepares env info rest

unfoldable pub valid_prepare_info : Env → Replica → ViewChange → PrepareInfo → Result Done
valid_prepare_info env r vc info =
    refuse_if (leb vc.view info.view || (info.sequence_number == 0)) prepare_view_or_sequence
    then_check refuse_if
        (not (info.view == info.pre_prepare.view)
          || not (info.sequence_number == info.pre_prepare.sequence_number))
        unmatched_pre_prepare
    then_check verify_signature env info.pre_prepare (peer_at r.peers (primary r.core info.view))
    then_check refuse_if (is_empty info.digest) empty_digest
    then_check refuse_if (not (info.digest == info.pre_prepare.digest)) unmatched_digest
    then_check refuse_if (ltb (length info.prepares) (prepare_quorum r.core)) too_few_prepares
    then_check valid_prepares env info info.prepares

unfoldable pub valid_prepare_infos : Env → Replica → ViewChange → List PrepareInfo → Result Done
valid_prepare_infos env r vc [] = ok tt
valid_prepare_infos env r vc (info ∷ rest) =
    valid_prepare_info env r vc info then_check valid_prepare_infos env r vc rest

unfoldable pub valid_view_change : Env → Replica → ViewChange → Result Done
valid_view_change env r vc =
    refuse_if (vc.view == 0) invalid_view_number then_check valid_prepare_infos env r vc vc.prepares

unfoldable pub count_others : PeerId → Map PeerId ViewChange → ℕ
count_others own [] = 0
count_others own ((replica, vc) ∷ rest) =
    let others = count_others own rest in if replica == own then others else others + 1

-- One round of the loop: the lowest view so far, with 0 for none.
unfoldable pub consider_view : Replica → ℕ → ViewChangeReceipts → ℕ → ℕ
consider_view r view vcs lowest =
    if leb view r.view
    then lowest
    else if leb (r.f + 1) (count_others r.id vcs.m)
    then if lowest == 0 then view else if ltb view lowest then view else lowest
    else lowest

unfoldable pub lowest_view : Replica → Map ℕ ViewChangeReceipts → ℕ → ℕ
lowest_view r [] lowest = lowest
lowest_view r ((view, vcs) ∷ rest) lowest = lowest_view r rest (consider_view r view vcs lowest)

unfoldable pub should_send_view_change : Replica → ℕ × Bool
should_send_view_change r =
    if not r.active_view
    then (0, false)
    else let view = lowest_view r r.view_changes 0 in (view, not (view == 0))
