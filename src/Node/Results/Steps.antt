-- ===== src/Node/Results/Steps.antt =====
-- What one more result does to the output of `gatherExecutionResultsPBFT`.
use b7s.Common.{
  ℕ, true, List, [], ◌∷◌, none, some, ◌≡◌, ◌⊎◌, refl, arith, nat_eq, leb, inl, inr, if◌then◌else◌,
  length, length-append, ◌==◌, ◌&&◌, Bool-cases, Option-cases, In, ◌∙◌,
}
use b7s.Common.Text.{text_eq, text_beq_iff}
use b7s.Common.Map.{lookup, insert, lookup-insert}
use b7s.Common.Map.Count.{Distinct}
use b7s.Models.{PeerId, NodeResult}
use b7s.Node.Results.{
  key_eq, key_beq_iff, ResultMap, peer_result_map_key, AggregatedResult, report_for, report_all,
  first_result, another_result, add_to, account_result, account_all,
}
use b7s.Node.Results.Senders.{
  senders, aggregated, lookup-account_all, aggregated_peers, senders-Sent, aggregated_more,
}

pub lookup-report_all :
    (a : AggregatedResult) (p : PeerId) (ps : List PeerId) (out : ResultMap)
    → (lookup p out ≡ some (report_for a p)) ⊎ In p ps
    → lookup p (report_all a ps out) ≡ some (report_for a p)
unfolding report_all
lookup-report_all a p [] out (inl e) = e
lookup-report_all a p [] out (inr m) = absurd m
lookup-report_all a p (q ∷ ps) out h = elim (Bool-cases (q == p)) [
  | inl e ↦
      lookup-report_all a p ps _
        (inl (ground (arith, lookup-insert q p (report_for a q) out, text_beq_iff q p)))
  | inr e ↦
      lookup-report_all a p ps _
        (ground (arith, h, lookup-insert q p (report_for a q) out, text_beq_iff q p))
]

pub lookup-report_all_other :
    (a : AggregatedResult) (p : PeerId) (ps : List PeerId) (out : ResultMap)
    → ¬ In p ps
    → lookup p (report_all a ps out) ≡ lookup p out
unfolding report_all
lookup-report_all_other a p [] out h = refl
lookup-report_all_other a p (q ∷ ps) out h =
    lookup-report_all_other a p ps (insert q (report_for a q) out) (λ m. h (inr m))
    ∙ ground (arith, h, lookup-insert q p (report_for a q) out, text_beq_iff q p)

-- What one more result does to the output.
pub out_step :
    (count : ℕ) (sender : PeerId) (er : NodeResult) (l : List (PeerId × NodeResult))
    → let key = peer_result_map_key er in
      let l' = (sender, er) ∷ l in
      (a : AggregatedResult) × (aggregated key l' ≡ some a)
      × ((account_all count l').out ≡ (
          if leb count (length (senders key l')) && leb 2 (length (senders key l'))
          then report_all a (senders key l') (account_all count l).out
          else (account_all count l).out))
unfolding account_all account_result add_to aggregated senders
out_step count sender er l =
    let key = peer_result_map_key er in
    let same : (key == key) ≡ true = ground (arith, key_beq_iff key key) in
    elim (Option-cases (aggregated key l)) [
      | inl e ↦ (
        first_result sender er,
        ground (arith, e, same),
        ground (arith, lookup-account_all count key l, e, same, aggregated_peers key l),
      )
      | inr (old, e) ↦ (
        another_result sender er old,
        ground (arith, e, same),
        ground (
          arith,
          lookup-account_all count key l,
          e,
          same,
          aggregated_peers key l,
          length-append (senders key l) (sender ∷ []),
          aggregated_more key l old e,
        ),
      )
    ]

-- A peer without a result is not in the output.
pub out_unknown :
    (count : ℕ) (l : List (PeerId × NodeResult)) (p : PeerId)
    → Distinct l
    → lookup p l ≡ none
    → lookup p (account_all count l).out ≡ none
unfolding account_all lookup
out_unknown count [] p d h = refl
out_unknown count ((sender, er) ∷ l) p d h =
    let (a, ag, e) = out_step count sender er l in
    let key = peer_result_map_key er in
    let l' = (sender, er) ∷ l in
    let absent : ¬ In p (senders key l') =
      λ m. let (x, b, k) = senders-Sent key l' p d m in ground (arith, b, h) in
    let before = out_unknown count l p d.1 (ground (arith, h, text_beq_iff sender p)) in
    ground (
      arith,
      e,
      before,
      lookup-report_all_other a p (senders key l') (account_all count l).out absent,
    )
