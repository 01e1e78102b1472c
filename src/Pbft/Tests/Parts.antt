-- ===== src/Pbft/Tests/Parts.antt =====
-- Quorums, signatures, broadcasts and receipts at concrete inputs.
use b7s.Common.{
  ℕ, false, In, NoRepeats, ◌+◌, ◌%◌, ◌≤◌, ◌≡◌, ◌≢◌, ◌⊎◌, refl, inl, inr, List, [], ◌∷◌, Bool, none,
  some, length, arith, All, select, ltb, ◌↔◌, ◌==◌, if◌then◌else◌, ◌&&◌, nat_eq,
}
use b7s.Common.Text.{text_eq, text_beq, text_beq_iff}
use b7s.Common.Hex
use b7s.Common.Map.{Map, lookup}
use b7s.Models.{PeerId, NodeResult}
use b7s.Pbft.Core.{
  get_message_id, message_id_eq, calc_byzantine_tolerance, new_pbft_core, commit_quorum,
}
use b7s.Pbft.Core.Quorum.{commit_quorums_overlap, IsQuorum, shared}
use b7s.Pbft.Core.Quorum.Overlap.{commit_quorums_overlap_cases}
use b7s.Pbft.Message.{Prepare, Commit, ViewChange, commit_signable, message, commit}
use b7s.Pbft.State.{new_state}
use b7s.Pbft.Action.{ok, err, broadcast_failed}
use b7s.Pbft.Messaging.{broadcast, save_trace_context}
use b7s.Pbft.Messaging.Broadcast.{broadcast-Sends, IsDelivered, send_events}
use b7s.Pbft.Prepare.{record_prepare_receipt}
use b7s.Pbft.Commit.{record_commit_receipt}
use b7s.Pbft.ViewChange.{record_view_change_receipt}
use b7s.Pbft.Receipts.{prepare_of, commit_of, view_change_of, receipts_first_kept}
use b7s.Pbft.Cleanup.{cleanup_state}
use b7s.Pbft.Cleanup.Lookup.{cleanup_state-lookup}
use b7s.Pbft.Signature.{
  sign, verify_signature, verify_request, verify_result, sign_result, sign_request,
}
use b7s.Pbft.Signature.RoundTrip.{
  KeyPair, verify-save-sign, verify-sign_result, verify-sign_request, commit_laws,
}
use b7s.Pbft.Tests.Fixtures.{
  env, alice, bob, carol, dave, cluster, commit_for, digest, job, seven, output, replica_of,
}

In-apart :
    (p : PeerId) (peers : List PeerId) → All (λ q. text_beq p q ≡ false) peers → In p peers → ⊥
In-apart p [] h m = absurd m
In-apart p (q ∷ peers) h (inl e) = ground (arith, h.0, text_beq_iff p q)
In-apart p (q ∷ peers) h (inr m) = In-apart p peers h.1 m

cluster-NoRepeats : NoRepeats cluster
unfolding text_beq
cluster-NoRepeats = (
  In-apart alice (bob ∷ carol ∷ dave ∷ []) (refl, (refl, (refl, tt))),
  (
    In-apart bob (carol ∷ dave ∷ []) (refl, (refl, tt)),
    (In-apart carol (dave ∷ []) (refl, tt), (In-apart dave [] tt, tt)),
  ),
)

commit_quorums_overlap_cases_example :
    ((4 % 3 ≡ 1)
      × ((a b : Map PeerId ℕ)
          → IsQuorum cluster a
          → IsQuorum cluster b
          → calc_byzantine_tolerance 4 + 1 ≤ length (shared cluster a b)))
    ⊎ ((4 % 3 ≢ 1)
        × ((a b : Map PeerId ℕ) × IsQuorum cluster a
            × IsQuorum cluster b
            × (length (shared cluster a b) ≤ calc_byzantine_tolerance 4)))
commit_quorums_overlap_cases_example =
    commit_quorums_overlap_cases 0 cluster cluster-NoRepeats (omega arith)

abbrev receipts_of : PeerId → PeerId → PeerId → Map PeerId Commit
receipts_of a b c =
    (a, commit_for 0 1 digest) ∷ (b, commit_for 0 1 digest) ∷ (c, commit_for 0 1 digest) ∷ []

commit_quorums_overlap_example :
    calc_byzantine_tolerance 4 + 1
    ≤ length (shared cluster (receipts_of alice bob carol) (receipts_of bob carol dave))
unfolding calc_byzantine_tolerance new_pbft_core commit_quorum lookup text_beq
commit_quorums_overlap_example =
    commit_quorums_overlap cluster (receipts_of alice bob carol) (receipts_of bob carol dave) refl
      (
        (refl, (refl, (refl, tt))),
        (inl refl, (inr (inl refl), (inr (inr (inl refl)), tt))),
        omega arith,
      )
      (
        (refl, (refl, (refl, tt))),
        (inr (inl refl), (inr (inr (inl refl)), (inr (inr (inr (inl refl))), tt))),
        omega arith,
      )

env-KeyPair : KeyPair env alice alice
env-KeyPair = record {
  extracts = refl;
  is_bytes = λ payload sig h. ground arith;
  verifies = λ payload sig h. ground arith;
}

verify-save-sign_example :
    verify_signature env (save_trace_context ((1 ∷ [], 2 ∷ []) ∷ []) (commit_for 0 1 digest)) alice
    ≡ ok tt
unfolding sign Hex.encode
verify-save-sign_example =
    verify-save-sign env alice alice env-KeyPair ((1 ∷ [], 2 ∷ []) ∷ []) (commit_for 0 1 digest)
      (commit_for 0 1 digest) refl

abbrev result : NodeResult
result = record {
  result = output;
  signature = [];
  pbft = record { view = 0; request_timestamp = 3; replica = alice };
  metadata = [];
}

verify-sign_result_example : verify_result env (record result { signature = seven }) alice ≡ ok tt
unfolding sign_result Hex.encode
verify-sign_result_example =
    verify-sign_result env alice alice env-KeyPair result (record result { signature = seven }) refl

verify-sign_request_example : verify_request env job.execute alice ≡ ok tt
unfolding sign_request Hex.encode
verify-sign_request_example =
    verify-sign_request env alice alice env-KeyPair (record job.execute { signature = [] })
      job.execute refl refl

broadcast-Sends_example :
    (flags : List Bool) × (length flags ≡ 3)
    × ((broadcast env (commit_for 0 1 digest) (replica_of alice)).1 ≡ record (replica_of alice) {
      history =
          send_events (message (commit (commit_for 0 1 digest))) (bob ∷ carol ∷ dave ∷ []) flags [];
    })
    × (((broadcast env (commit_for 0 1 digest) (replica_of alice)).0 ≡ ok (commit_for 0 1 digest))
        ↔ All IsDelivered flags)
    × (((broadcast env (commit_for 0 1 digest) (replica_of alice)).0 ≡ err broadcast_failed)
        ↔ ¬ All IsDelivered flags)
unfolding save_trace_context select text_beq
broadcast-Sends_example =
    broadcast-Sends env (commit_for 0 1 digest) (replica_of alice) (1 ∷ []) refl

receipts_first_kept_example :
    ((m : Prepare)
      → prepare_of (record_prepare_receipt bob m (replica_of alice)) (get_message_id 0 1) bob ≡ (
          if (get_message_id m.view m.sequence_number == get_message_id 0 1) && (bob == bob)
          then some m
          else none))
    × ((m : Commit)
        → commit_of (record_commit_receipt bob m (replica_of alice)) (get_message_id 0 1) bob ≡ (
            if (get_message_id m.view m.sequence_number == get_message_id 0 1) && (bob == bob)
            then some m
            else none))
    × ((m : ViewChange)
        → view_change_of (record_view_change_receipt bob m (replica_of alice)) 1 bob
          ≡ (if (m.view == 1) && (bob == bob) then some m else none))
unfolding lookup
receipts_first_kept_example = receipts_first_kept bob bob (replica_of alice) (get_message_id 0 1) 1

cleanup_state-lookup_example :
    let r' = cleanup_state 1 (replica_of alice) in
    (r'.pending ≡ [])
    × (lookup (get_message_id 0 1) r'.pre_prepares
        ≡ (if ltb 0 1 then none else lookup (get_message_id 0 1) []))
    × (lookup (get_message_id 0 1) r'.prepares
        ≡ (if ltb 0 1 then none else lookup (get_message_id 0 1) []))
    × (lookup (get_message_id 0 1) r'.commits
        ≡ (if ltb 0 1 then none else lookup (get_message_id 0 1) []))
    × (r' ≡ record (replica_of alice) {
      state = record new_state {
        pending = r'.pending;
        pre_prepares = r'.pre_prepares;
        prepares = r'.prepares;
        commits = r'.commits;
      };
    })
unfolding get_message_id
cleanup_state-lookup_example = cleanup_state-lookup 1 (replica_of alice) (get_message_id 0 1)
