-- ===== src/Pbft/Tests/Runs.antt =====
-- A request that bob runs for the cluster of Fixtures.
use b7s.Common.{◌≤◌, ◌+◌, ◌≡◌, ◌↔◌, refl, List, [], ◌∷◌, true, false, length, inl, inr, In}
use b7s.Common.Text.{text_beq}
use b7s.Common.Hex
use b7s.Common.Map.{lookup, insert, erase}
use b7s.Models.{PeerId}
use b7s.Pbft.Core.{
  calc_byzantine_tolerance, new_pbft_core, commit_quorum, prepare_quorum, current_primary,
  get_message_id, primary,
}
use b7s.Pbft.Core.Quorum.{shared}
use b7s.Pbft.Message.{pre_prepare, prepare, commit}
use b7s.Pbft.State.{Replica}
use b7s.Pbft.Action.{Env, ok, follow}
use b7s.Pbft.Signature.{sign, sign_result, verify_signature}
use b7s.Pbft.Messaging.{broadcast, send, send_to_peers}
use b7s.Pbft.Timer.{increment, start_request_timer, stop_request_timer}
use b7s.Pbft.Conditions.{pre_prepared, prepared, committed, primary_replica_id, is_primary}
use b7s.Pbft.Conditions.Counts.{IsCommitted, committed_iff}
use b7s.Pbft.Execute.{execute, execute_pending, run_request, report_result, post_process}
use b7s.Pbft.Commit.{
  process_commit, record_commit_receipt, execute_if_committed, maybe_send_commit,
  should_send_commit, send_commit,
}
use b7s.Pbft.Prepare.{process_prepare, accept_prepare, record_prepare_receipt, send_prepare}
use b7s.Pbft.PrePrepare.{
  process_pre_prepare, accept_pre_prepare, save_if_free, answer_pre_prepare, note_pre_prepare,
}
use b7s.Pbft.Process.{
  new_replica, apply_settings, process_message, dispatch, is_message_allowed, handle_stream,
}
use b7s.Pbft.Evolve.Runs.{Input, received, timed_out, run, step}
use b7s.Pbft.ViewChange.{get_prepare_set, prepare_set_from, prepared_requests}
use b7s.Pbft.Placed.Certificates.{IsSound, get_prepare_set-IsSound}
use b7s.Pbft.Reached.{Reached}
use b7s.Pbft.Ascent.{run_view_ascends}
use b7s.Pbft.Agreement.{committed_replicas_overlap, commits_for}
use b7s.Pbft.Order.{InOrder, run-InOrder}
use b7s.Pbft.Tests.Fixtures.{
  env, alice, bob, carol, dave, cluster, replica_of, proposal, prepare_for, commit_for, digest,
  certificate,
}

new_replica_test : (id : PeerId) → new_replica id false cluster [] ≡ ok (replica_of id)
unfolding new_replica apply_settings new_pbft_core calc_byzantine_tolerance
new_replica_test id = refl

-- The proposal of alice, a prepare and a commit of carol, and a commit of alice.
abbrev inputs : List (Env × Input)
inputs =
    (env, received alice (pre_prepare (proposal 0 1)))
    ∷ (env, received carol (prepare (prepare_for 0 1 digest)))
    ∷ (env, received carol (commit (commit_for 0 1 digest)))
    ∷ (env, received alice (commit (commit_for 0 1 digest)))
    ∷ []

-- Bob and dave, who are the backups among them, both execute the request.
abbrev bob_after : Replica
bob_after = run inputs (replica_of bob)

abbrev dave_after : Replica
dave_after = run inputs (replica_of dave)

runs_test :
    (bob_after.last_executed ≡ 1)
    × (committed bob_after 0 1 digest ≡ true)
    × (committed dave_after 0 1 digest ≡ true)
unfolding run step handle_stream process_message dispatch is_message_allowed process_pre_prepare
    accept_pre_prepare save_if_free answer_pre_prepare note_pre_prepare pre_prepared prepared
    committed primary_replica_id is_primary current_primary primary get_message_id follow sign
    verify_signature broadcast send send_to_peers start_request_timer stop_request_timer increment
    execute execute_pending run_request report_result post_process process_commit
    record_commit_receipt execute_if_committed maybe_send_commit should_send_commit send_commit
    process_prepare accept_prepare record_prepare_receipt send_prepare lookup insert erase text_beq
    commit_quorum prepare_quorum Hex.encode Hex.decode sign_result
runs_test = (refl, refl, refl)

committed_iff_example : (committed bob_after 0 1 digest ≡ true) ↔ IsCommitted bob_after 0 1 digest
committed_iff_example = committed_iff bob_after 0 1 digest

run-InOrder_example : InOrder bob_after
run-InOrder_example =
    run-InOrder bob false cluster [] inputs (replica_of bob) (new_replica_test bob)

reached : (id : PeerId) → In id cluster → Reached cluster (run inputs (replica_of id))
reached id i = (id, false, [], replica_of id, inputs, i, new_replica_test id, refl)

committed_replicas_overlap_example :
    calc_byzantine_tolerance 4 + 1
    ≤ length (shared cluster (commits_for bob_after 0 1) (commits_for dave_after 0 1))
committed_replicas_overlap_example =
    committed_replicas_overlap cluster bob_after dave_after 0 1 digest digest refl
      (reached bob (inr (inl refl))) (reached dave (inr (inr (inr (inl refl))))) runs_test.1
      runs_test.2

-- The timer of bob fires, and he asks for the next view.
run_view_ascends_example : bob_after.view ≤ (run ((env, timed_out 1) ∷ []) bob_after).view
run_view_ascends_example =
    run_view_ascends cluster bob_after ((env, timed_out 1) ∷ []) (reached bob (inr (inl refl)))

certificate_test : In (certificate 0 1) (get_prepare_set bob_after)
unfolding get_prepare_set prepare_set_from prepared_requests run step handle_stream process_message
    dispatch is_message_allowed process_pre_prepare accept_pre_prepare save_if_free
    answer_pre_prepare note_pre_prepare pre_prepared prepared committed primary_replica_id
    is_primary current_primary primary get_message_id follow sign verify_signature broadcast send
    send_to_peers start_request_timer stop_request_timer increment execute execute_pending
    run_request report_result post_process process_commit record_commit_receipt execute_if_committed
    maybe_send_commit should_send_commit send_commit process_prepare accept_prepare
    record_prepare_receipt send_prepare lookup insert erase text_beq commit_quorum prepare_quorum
    Hex.encode Hex.decode sign_result
certificate_test = inl refl

get_prepare_set-IsSound_example : IsSound bob_after (certificate 0 1)
get_prepare_set-IsSound_example =
    get_prepare_set-IsSound cluster bob_after (certificate 0 1) (reached bob (inr (inl refl)))
      certificate_test
