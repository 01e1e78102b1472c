-- ===== src/Node/Results/Direct.antt =====
-- What `gatherExecutionResults` (node/execution_results.go) collects without PBFT.
use b7s.Common.{List, [], ◌∷◌, Option, none, some, ◌≡◌, refl, arith, Option-cases, inl, inr}
use b7s.Common.Text.{text_eq, text_beq_iff}
use b7s.Common.Map.{lookup, lookup-insert}
use b7s.Common.Map.Count.{Distinct}
use b7s.Models.{PeerId, NodeResult}
use b7s.Node.Results.{ResultMap, gather_execution_results}

-- What a peer's response holds for the peer itself.
abbrev pub own_result : PeerId → Option (Option ResultMap) → Option NodeResult
own_result p none = none
own_result p (some none) = none
own_result p (some (some res)) = lookup p res

-- Of arrivals, one from each peer, the result of a peer is the one that its own response holds for
-- it, if there is one; what a response says of other peers does not count.
pub gather_execution_results-lookup :
    (arrivals : List (PeerId × Option ResultMap)) (p : PeerId)
    → Distinct arrivals
    → lookup p (gather_execution_results arrivals) ≡ own_result p (lookup p arrivals)
unfolding gather_execution_results lookup
gather_execution_results-lookup [] p d = refl
gather_execution_results-lookup ((peer, none) ∷ rest) p d =
    ground (arith, d.0, gather_execution_results-lookup rest p d.1, text_beq_iff peer p)
gather_execution_results-lookup ((peer, some res) ∷ rest) p d =
    let before = gather_execution_results-lookup rest p d.1 in
    elim (Option-cases (lookup peer res)) [
      | inl e ↦ ground (arith, e, d.0, before, text_beq_iff peer p)
      | inr (er, e) ↦ ground (
        arith,
        e,
        d.0,
        before,
        text_beq_iff peer p,
        lookup-insert peer p er (gather_execution_results rest),
      )
    ]
