-- ===== src/Pbft/NewView.antt =====
-- consensus/pbft/new_view.go, and `processViewChange` of consensus/pbft/view_change.go.
pub mod Certificates
pub mod Generate
use b7s.Common.{
  ℕ, zero, suc, ◌+◌, Bool, true, false, List, [], ◌∷◌, Option, none, some, ltb, leb, ◌==◌, nat_eq,
  if◌then◌else◌, not, ◌||◌, ◌&&◌, length,
}
use b7s.Common.Text.{Text, text_eq}
use b7s.Common.Map.{Map, lookup, insert, has}
use b7s.Models.{PeerId}
use b7s.Pbft.Core.{primary, commit_quorum, get_message_id, MessageId, message_id_eq}
use b7s.Pbft.Message.{
  Message, request, Request, null_request, PrePrepare, PrepareInfo, ViewChange, NewView, no_base,
  pre_prepare_signable, view_change_signable, new_view_signable,
}
use b7s.Pbft.State.{Replica, ViewChangeReceipts}
use b7s.Pbft.Action.{
  Env, Result, Action, Done, ok, err, gets, or_raise, done, pure, lift, raise_if, modify, logged,
  ◌>>=◌, ◌>>◌, not_projected_primary, no_view_changes, too_few_view_changes, wrong_pre_prepare_view,
  unexpected_sequence_list,
}
use b7s.Pbft.Signature.{get_digest, sign, verify_signature}
use b7s.Pbft.Messaging.{broadcast, is_empty}
use b7s.Pbft.Timer.{start_request_timer}
use b7s.Pbft.Conditions.{peer_at, view_change_ready}
use b7s.Pbft.PrePrepare.{save_pre_prepare, process_pre_prepare}
use b7s.Pbft.Request.{process_request}
use b7s.Pbft.Cleanup.{cleanup_state, outstanding_requests}
use b7s.Pbft.ViewChange.{
  view_change_for, view_changes_at, ◌then_check◌, refuse_if, record_view_change_receipt,
  valid_view_change, should_send_view_change, start_view_change,
}

-- The highest sequence number of a list of certificates, and of the view changes.
unfoldable pub highest_of : List PrepareInfo → ℕ → ℕ
highest_of [] max = max
highest_of (prepare ∷ rest) max =
    highest_of rest (if ltb max prepare.sequence_number then prepare.sequence_number else max)

unfoldable pub highest_from : Map PeerId ViewChange → ℕ → ℕ
highest_from [] max = max
highest_from ((replica, vc) ∷ rest) max = highest_from rest (highest_of vc.prepares max)

unfoldable pub get_highest_sequence_number : Map PeerId ViewChange → ℕ
get_highest_sequence_number vcs = highest_from vcs 0

-- One round of `getPrepare`: `none` is `found == false`.
abbrev pub better : Option PrepareInfo → PrepareInfo → Option PrepareInfo
better none prepare = some prepare
better (some out) prepare = if ltb out.view prepare.view then some prepare else some out

unfoldable pub best_of : ℕ → List PrepareInfo → Option PrepareInfo → Option PrepareInfo
best_of sequence_no [] out = out
best_of sequence_no (prepare ∷ rest) out =
    best_of sequence_no rest
      (if prepare.sequence_number == sequence_no then better out prepare else out)

unfoldable pub best_from : ℕ → Map PeerId ViewChange → Option PrepareInfo → Option PrepareInfo
best_from sequence_no [] out = out
best_from sequence_no ((replica, vc) ∷ rest) out =
    best_from sequence_no rest (best_of sequence_no vc.prepares out)

unfoldable pub get_prepare : Map PeerId ViewChange → ℕ → Option PrepareInfo
get_prepare vcs sequence_no = best_from sequence_no vcs none

abbrev pub new_view_pre_prepare : ℕ → ℕ → Option PrepareInfo → PrePrepare
new_view_pre_prepare view sequence_no (some prepare) = record {
  base = no_base;
  view = view;
  sequence_number = sequence_no;
  digest = prepare.digest;
  request = prepare.pre_prepare.request;
  signature = [];
}
new_view_pre_prepare view sequence_no none = record {
  base = no_base;
  view = view;
  sequence_number = sequence_no;
  digest = [];
  request = null_request;
  signature = [];
}

-- The loop over the sequence numbers, with the number of rounds left and the next number. A highest
-- number that is too large for the memory, on which the source panics, or that is the largest uint,
-- with which its loop does not end, is not modelled.
unfoldable pub pre_prepares_from : ℕ → Map PeerId ViewChange → ℕ → ℕ → List PrePrepare
pre_prepares_from view vcs zero sequence_no = []
pre_prepares_from view vcs (suc rounds) sequence_no =
    new_view_pre_prepare view sequence_no (get_prepare vcs sequence_no)
    ∷ pre_prepares_from view vcs rounds (sequence_no + 1)

unfoldable pub generate_pre_prepares : ℕ → Map PeerId ViewChange → List PrePrepare
generate_pre_prepares view vcs = pre_prepares_from view vcs (get_highest_sequence_number vcs) 1

unfoldable pub sign_all : Env → List PrePrepare → Result (List PrePrepare)
sign_all env [] = ok []
sign_all env (pp ∷ rest) = elim (sign env pp) [
  | err e ↦ err e
  | ok signed ↦ elim (sign_all env rest) [ err e ↦ err e | ok others ↦ ok (signed ∷ others) ]
]

-- This replica's own view change joins the others if it is not there; it is not signed.
abbrev pub with_own : Replica → ℕ → ViewChangeReceipts → ViewChangeReceipts
with_own r view vcs =
    if has (lookup r.id vcs.m)
    then vcs
    else record { m = insert r.id (view_change_for r view) vcs.m }

abbrev pub add_own_view_change : ℕ → ViewChangeReceipts → Replica → Replica
add_own_view_change view vcs r = record r {
  state = record r.state { view_changes = insert view (with_own r view vcs) r.view_changes };
}

abbrev pub add_if_missing : Text → Request → Map Text Request → Map Text Request
add_if_missing digest req m = if has (lookup digest m) then m else insert digest req m

abbrev pub save_new_pre_prepare : PrePrepare → Replica → Replica
save_new_pre_prepare pp r =
    let saved = save_pre_prepare pp r in
    record saved {
      state = record saved.state {
        requests = add_if_missing pp.digest pp.request saved.requests;
        pending = add_if_missing pp.digest pp.request saved.pending;
      };
    }

unfoldable pub install_pre_prepares : List PrePrepare → Replica → Replica
install_pre_prepares [] r = r
install_pre_prepares (pp ∷ rest) r = install_pre_prepares rest (save_new_pre_prepare pp r)

abbrev pub enter_view : ℕ → Replica → Replica
enter_view view r = record r {
  core = record r.core { view = view };
  state = record r.state { active_view = true };
}

-- A request that is pending already came with the new view.
unfoldable pub resubmit_request : Env → Request → Action Done
resubmit_request env req r =
    if has (lookup (get_digest env (request req)) r.pending)
    then (ok tt, r)
    else logged (process_request env req.origin req) r

unfoldable pub resubmit : Env → List Request → Action Done
resubmit env [] = done
resubmit env (req ∷ rest) = resubmit_request env req >> resubmit env rest

unfoldable pub announce_new_view : Env → ℕ → Map PeerId ViewChange → Action (List PrePrepare)
announce_new_view env view vcs = do
  pre_prepares ← lift (sign_all env (generate_pre_prepares view vcs))
  let new_view : NewView = record {
    base = no_base;
    view = view;
    messages = vcs;
    pre_prepares = pre_prepares;
    signature = [];
  }
  signed ← lift (sign env new_view)
  broadcast env signed >> pure pre_prepares

-- The end of `startNewView`, once the new view has been announced.
unfoldable pub open_new_view : Env → ℕ → List PrePrepare → Action Done
open_new_view env view pre_prepares = do
  modify (cleanup_state view)
  modify (install_pre_prepares pre_prepares)
  modify (enter_view view)
  requests ← gets outstanding_requests
  resubmit env requests

-- The middle of `startNewView`: the view changes are counted again, and the new view is announced.
unfoldable pub launch_new_view : Env → ℕ → Action Done
launch_new_view env view = do
  ready ← gets (λ r. view_change_ready r view)
  raise_if (not ready) too_few_view_changes
  messages ← gets (λ r. (view_changes_at (lookup view r.view_changes)).m)
  pre_prepares ← announce_new_view env view messages
  open_new_view env view pre_prepares

unfoldable pub start_new_view : Env → ℕ → Action Done
start_new_view env view r =
    if not (peer_at r.peers (primary r.core view) == r.id)
    then (err not_projected_primary, r)
    else elim (lookup view r.view_changes) [
      | none ↦ (err no_view_changes, r)
      | some vcs ↦ launch_new_view env view (add_own_view_change view vcs r)
    ]

unfoldable pub join_view_change : Env → Action Done
join_view_change env r =
    let (next_view, should) = should_send_view_change r in
    if should then logged (start_view_change env next_view) r else (ok tt, r)

-- The primary of the view starts it when it has enough view changes.
unfoldable pub lead_new_view : Env → ℕ → Action Done
lead_new_view env view r =
    if not (peer_at r.peers (primary r.core view) == r.id)
    then (ok tt, r)
    else if not (view_change_ready r view)
    then (ok tt, r)
    else start_new_view env view r

unfoldable pub follow_view_change : Env → ℕ → Action Done
follow_view_change env view r =
    if (view == r.view) && r.active_view
    then (ok tt, r)
    else (join_view_change env >> lead_new_view env view) r

unfoldable pub accept_view_change : Env → PeerId → ViewChange → Action Done
accept_view_change env replica msg = do
  lift (verify_signature env msg replica)
  valid ← gets (λ r. valid_view_change env r msg)
  lift valid
  modify (record_view_change_receipt replica msg)
  follow_view_change env msg.view

unfoldable pub process_view_change : Env → PeerId → ViewChange → Action Done
process_view_change env replica msg r =
    if ltb msg.view r.view then (ok tt, r) else accept_view_change env replica msg r

unfoldable pub valid_messages : Env → Replica → Map PeerId ViewChange → Result Done
valid_messages env r [] = ok tt
valid_messages env r ((replica, vc) ∷ rest) =
    valid_view_change env r vc
    then_check verify_signature env vc replica
    then_check valid_messages env r rest

-- The pre-prepares are for the view and numbered from one; `i` counts them.
unfoldable pub valid_sequence : ℕ → ℕ → List PrePrepare → Result Done
valid_sequence view i [] = ok tt
valid_sequence view i (pp ∷ rest) =
    refuse_if (not (pp.view == view)) wrong_pre_prepare_view
    then_check refuse_if (not (i + 1 == pp.sequence_number)) unexpected_sequence_list
    then_check valid_sequence view (i + 1) rest

unfoldable pub valid_new_view : Env → Replica → PeerId → NewView → Result Done
valid_new_view env r replica new_view =
    refuse_if (not (peer_at r.peers (primary r.core new_view.view) == replica))
      not_projected_primary
    then_check verify_signature env new_view (peer_at r.peers (primary r.core new_view.view))
    then_check refuse_if (ltb (length new_view.messages) (commit_quorum r.core))
        too_few_view_changes
    then_check valid_messages env r new_view.messages
    then_check valid_sequence new_view.view 0 new_view.pre_prepares

unfoldable pub process_pre_prepares : Env → PeerId → List PrePrepare → Action Done
process_pre_prepares env replica [] = done
process_pre_prepares env replica (pp ∷ rest) = do
  logged (process_pre_prepare env replica pp)
  process_pre_prepares env replica rest

unfoldable pub watch_outstanding : Replica → Replica
watch_outstanding r = if is_empty (outstanding_requests r) then r else start_request_timer false r

unfoldable pub follow_new_view : Env → PeerId → NewView → Action Done
follow_new_view env replica new_view = do
  modify (enter_view new_view.view)
  modify (cleanup_state new_view.view)
  process_pre_prepares env replica new_view.pre_prepares
  modify watch_outstanding

unfoldable pub process_new_view : Env → PeerId → NewView → Action Done
process_new_view env replica new_view r =
    if ltb new_view.view r.view
    then (ok tt, r)
    else (lift (valid_new_view env r replica new_view) >> follow_new_view env replica new_view) r
