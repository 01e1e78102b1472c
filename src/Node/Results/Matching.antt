-- ===== src/Node/Results/Matching.antt =====
-- Which results reach the output of `gatherExecutionResultsPBFT`.
use b7s.Common.{
  ℕ, false, List, [], ◌∷◌, Option, none, some, ◌≡◌, ◌⊎◌, ◌≤◌, ◌<◌, subst, arith, nat_eq, leb, inl,
  inr, if◌then◌else◌, length, length-append, ◌==◌, ◌&&◌, Bool-cases, Option-cases, eq_of_beq, In,
}
use b7s.Common.Text.{text_eq, text_beq_iff}
use b7s.Common.Map.{lookup}
use b7s.Common.Map.Count.{Distinct}
use b7s.Models.{PeerId, NodeResult}
use b7s.Node.Results.{
  ResultKey, key_eq, key_beq_iff, ResultMap, peer_result_map_key, AggregatedResult, report_for,
  report_all, account_all, accepted, gather_execution_results_pbft,
}
use b7s.Node.Results.Steps.{lookup-report_all, lookup-report_all_other, out_step, out_unknown}
use b7s.Node.Results.Verified.{IsVerified, accepted-Distinct, accepted-IsVerified}
use b7s.Pbft.Core.{min_cluster_results}
use b7s.Pbft.Action.{Env}
use b7s.Node.Results.Senders.{
  senders, aggregated, aggregated_output, senders-Sent, lookup-senders, aggregated_metadata,
}

-- The result of a peer is in the output, with the output of the process and the metadata that it
-- sent, or not, as there are enough of its kind.
abbrev pub IsReported : ℕ → List (PeerId × NodeResult) → PeerId → NodeResult → Type 0
IsReported count l p er =
    let out = (account_all count l).out in
    let n = length (senders (peer_result_map_key er) l) in
    ((count ≤ n)
      × (2 ≤ n)
      × (nr : NodeResult) × (lookup p out ≡ some nr)
      × (nr.result.result ≡ er.result.result)
      × (nr.metadata ≡ er.metadata))
    ⊎ (((n < count) ⊎ (n < 2)) × (lookup p out ≡ none))

abbrev Stepped : ℕ → PeerId → NodeResult → List (PeerId × NodeResult) → ResultKey → Type 0
Stepped count sender er l key =
    let l' = (sender, er) ∷ l in
    (a : AggregatedResult) × (aggregated key l' ≡ some a)
    × ((account_all count l').out ≡ (
        if leb count (length (senders key l')) && leb 2 (length (senders key l'))
        then report_all a (senders key l') (account_all count l).out
        else (account_all count l).out))

senders_grow :
    (key : ResultKey) (sender : PeerId) (er : NodeResult) (l : List (PeerId × NodeResult))
    → length (senders key l) ≤ length (senders key ((sender, er) ∷ l))
unfolding senders
senders_grow key sender er l = ground (arith, length-append (senders key l) (sender ∷ []))

-- The result that has come last has the key of this one.
out_same_key :
    (count : ℕ) (sender : PeerId) (first : NodeResult) (l : List (PeerId × NodeResult)) (p : PeerId)
    (er : NodeResult)
    → Distinct ((sender, first) ∷ l)
    → lookup p ((sender, first) ∷ l) ≡ some er
    → Stepped count sender first l (peer_result_map_key er)
    → (lookup p l ≡ some er → IsReported count l p er)
    → IsReported count ((sender, first) ∷ l) p er
unfolding lookup
out_same_key count sender first l p er d h (a, ag, e) before =
    let key = peer_result_map_key er in
    let l' = (sender, first) ∷ l in
    let n = length (senders key l') in
    elim (Bool-cases (leb count n && leb 2 n)) [
      | inl c ↦
          let reported =
            lookup-report_all a p (senders key l') (account_all count l).out
              (inr (lookup-senders l' p er h)) in
          inl (
            ground (arith, c),
            ground (arith, c),
            report_for a p,
            ground (arith, c, e, reported),
            aggregated_output key l' a ag,
            aggregated_metadata l' p er a h ag,
          )
      | inr c ↦ inr (
        ground (arith, c),
        elim (Bool-cases (sender == p)) [
          | inl s ↦ ground (
            arith,
            c,
            e,
            out_unknown count l p d.1 (ground (arith, d.0, s, text_beq_iff sender p)),
          )
          | inr s ↦ elim (before (rw s at h)) [
            | inl (x, y, nr, z, u, w) ↦
                absurd (ground (arith, c, x, y, senders_grow key sender first l))
            | inr (x, y) ↦ ground (arith, c, e, y)
          ]
        ],
      )
    ]

-- It has another key.
out_other_key :
    (count : ℕ) (sender : PeerId) (first : NodeResult) (l : List (PeerId × NodeResult)) (p : PeerId)
    (er : NodeResult)
    → Distinct ((sender, first) ∷ l)
    → lookup p ((sender, first) ∷ l) ≡ some er
    → (peer_result_map_key first == peer_result_map_key er) ≡ false
    → Stepped count sender first l (peer_result_map_key first)
    → (lookup p l ≡ some er → IsReported count l p er)
    → IsReported count ((sender, first) ∷ l) p er
unfolding senders lookup
out_other_key count sender first l p er d h k (a, ag, e) before =
    let key = peer_result_map_key first in
    let l' = (sender, first) ∷ l in
    let known : lookup p l ≡ some er =
      ground (arith, h, k, key_beq_iff key (peer_result_map_key er)) in
    let absent : ¬ In p (senders key l') = λ m.
      let (x, b, q) = senders-Sent key l' p d m in
      ground (arith, b, h, q, k, key_beq_iff key (peer_result_map_key er)) in
    let same : lookup p (account_all count l').out ≡ lookup p (account_all count l).out =
      ground
        (arith, e, lookup-report_all_other a p (senders key l') (account_all count l).out absent) in
    rw (k, same) (before known)

out_known :
    (count : ℕ) (l : List (PeerId × NodeResult)) (p : PeerId) (er : NodeResult)
    → Distinct l
    → lookup p l ≡ some er
    → IsReported count l p er
unfolding lookup
out_known count [] p er d h = cc
out_known count ((sender, first) ∷ l) p er d h =
    let key = peer_result_map_key er in
    let step = out_step count sender first l in
    elim (Bool-cases (peer_result_map_key first == key)) [
      | inl k ↦
          out_same_key count sender first l p er d h
            (subst (Stepped count sender first l) (eq_of_beq (peer_result_map_key first) key k)
              step)
            (out_known count l p er d.1)
      | inr k ↦ out_other_key count sender first l p er d h k step (out_known count l p er d.1)
    ]

-- Of the arrivals, one from each peer, only results with a right signature count. A result is in the
-- output, under its peer and with that peer's metadata, exactly when the results with the same output
-- and the same timestamp are at least f + 1, and at least two.
pub gather_execution_results_pbft_matching :
    (env : Env) (peers : List PeerId) (arrivals : List (PeerId × Option ResultMap)) (p : PeerId)
    → Distinct arrivals
    → ((lookup p (accepted env arrivals) ≡ none)
        × (lookup p (gather_execution_results_pbft env peers arrivals) ≡ none))
      ⊎ ((er : NodeResult) × (lookup p (accepted env arrivals) ≡ some er)
          × IsVerified env p er
          × IsReported (min_cluster_results (length peers)) (accepted env arrivals) p er)
unfolding gather_execution_results_pbft
gather_execution_results_pbft_matching env peers arrivals p d =
    let l = accepted env arrivals in
    let count = min_cluster_results (length peers) in
    let distinct = accepted-Distinct env arrivals d in
    elim (Option-cases (lookup p l)) [
      | inl e ↦ inl (e, out_unknown count l p distinct e)
      | inr (er, e) ↦
          inr (er, e, accepted-IsVerified env arrivals p er e, out_known count l p er distinct e)
    ]
