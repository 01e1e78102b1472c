-- ===== src/Node/Tests.antt =====
-- The results of a cluster of four at concrete inputs.
mod Choice
mod Execution
mod Delivery
use b7s.Common.{length, ◌≤◌, ℕ, In, List, [], ◌∷◌, none, some, ◌≡◌, ◌⊎◌, Option, refl}
use b7s.Common.Text.{Text, text_eq, text_beq}
use b7s.Common.Hex
use b7s.Common.Map.{lookup, insert}
use b7s.Models.{PeerId, NodeResult, RuntimeOutput}
use b7s.Pbft.Core.{min_cluster_results, calc_byzantine_tolerance}
use b7s.Pbft.Signature.{verify_result}
use b7s.Pbft.Tests.Fixtures.{env, alice, bob, carol, dave, cluster, output, seven}
use b7s.Node.Results.{
  ResultMap, gather_execution_results, gather_execution_results_pbft, accepted, accept_result,
  account_all, account_result, add_to, report_all,
}
use b7s.Node.Aggregate.{Aggregate, aggregate, aggregates_of, stats_of, sort_by_frequency, place}
use b7s.Node.Aggregate.Sorting.{IsSorted}
use b7s.Node.Aggregate.Groups.{group, peers_with, aggregate_groups}
use b7s.Node.Results.Direct.{gather_execution_results-lookup}
use b7s.Node.Results.Verified.{IsVerified}
use b7s.Node.Results.Matching.{IsReported, gather_execution_results_pbft_matching}

abbrev answer : PeerId → Text → NodeResult
answer peer signature = record {
  result = output;
  signature = signature;
  pbft = record { view = 0; request_timestamp = 3; replica = peer };
  metadata = peer;
}

-- Bob and carol agree, dave did not sign, and alice does not answer.
abbrev arrivals : List (PeerId × Option ResultMap)
arrivals =
    (alice, none)
    ∷ (dave, some ((dave, answer dave []) ∷ []))
    ∷ (carol, some ((carol, answer carol seven) ∷ []))
    ∷ (bob, some ((bob, answer bob seven) ∷ []))
    ∷ []

gather_execution_results_pbft_test : gather_execution_results_pbft env cluster arrivals ≡ (
    (
      bob,
      record {
        result = output;
        signature = [];
        pbft = record { view = 0; request_timestamp = 0; replica = [] };
        metadata = bob;
      },
    )
    ∷ (
      carol,
      record {
        result = output;
        signature = [];
        pbft = record { view = 0; request_timestamp = 0; replica = [] };
        metadata = carol;
      },
    )
    ∷ [])
unfolding gather_execution_results_pbft accepted accept_result account_all account_result add_to
    report_all lookup insert text_beq verify_result Hex.decode min_cluster_results
    calc_byzantine_tolerance
gather_execution_results_pbft_test = refl

gather_execution_results_pbft_matching_example :
    ((lookup bob (accepted env arrivals) ≡ none)
      × (lookup bob (gather_execution_results_pbft env cluster arrivals) ≡ none))
    ⊎ ((er : NodeResult) × (lookup bob (accepted env arrivals) ≡ some er)
        × IsVerified env bob er
        × IsReported (min_cluster_results 4) (accepted env arrivals) bob er)
unfolding lookup text_beq
gather_execution_results_pbft_matching_example =
    gather_execution_results_pbft_matching env cluster arrivals bob
      (refl, (refl, (refl, (refl, tt))))

-- Alice has another output than bob and carol.
abbrev results : ResultMap
results =
    (
      alice,
      record (answer alice seven) {
        result = record output { result = record output.result { stdout = [] } };
      },
    )
    ∷ (bob, answer bob seven)
    ∷ (carol, answer carol seven)
    ∷ []

abbrev frequencies : List Aggregate → List (ℕ × ℕ)
frequencies [] = []
frequencies (a ∷ rest) = a.frequency ∷ frequencies rest

aggregate_test : frequencies (aggregate results) ≡ ((200, 3) ∷ (100, 3) ∷ [])
unfolding aggregate aggregates_of stats_of sort_by_frequency place lookup insert text_beq
aggregate_test = refl

aggregate_groups_example :
    IsSorted (aggregate results)
    × ((a : Aggregate)
        → In a (aggregate results)
        → (a ≡ group a.result results) × (1 ≤ length a.peers))
    × ((o : RuntimeOutput)
        → 1 ≤ length (peers_with o results)
        → In (group o results) (aggregate results))
aggregate_groups_example = aggregate_groups results

gather_execution_results-lookup_example :
    lookup bob (gather_execution_results arrivals) ≡ some (answer bob seven)
unfolding lookup text_beq
gather_execution_results-lookup_example =
    gather_execution_results-lookup arrivals bob (refl, (refl, (refl, (refl, tt))))
