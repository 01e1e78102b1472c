-- ===== src/Node/Head.antt =====
-- The phases of an execution on the head node (node/head_execute.go): the roll call, the cluster, the
-- request, and the results. What comes from outside is given with its order.
pub mod Orderly
use b7s.Common.{
  ℕ, ◌*◌, Bool, true, false, not, ◌&&◌, List, [], ◌∷◌, ◌++◌, Option, none, some, length, leb, ltb,
  nat_beq, if◌then◌else◌,
}
use b7s.Common.Text.{Text}
use b7s.Common.Outcome.{Outcome, ok, err}
use b7s.Models.{PeerId, ExecuteRequest, Fraction, TraceInfo}
use b7s.Models.Code
use b7s.Models.Code.{Code}
use b7s.Models.Consensus.{ConsensusType, parse_consensus, consensus_required, is_pbft}
use b7s.Pbft.Action
use b7s.Pbft.Action.{Env}
use b7s.Pbft.Signature.{sign_request}
use b7s.Node.RollCall.{
  RollCallEvent, RollCallOutcome, waiting, roll_call_timeout, reported, too_few_for_pbft,
  execute_roll_call,
}
use b7s.Node.Results.{ResultMap, gather_execution_results, gather_execution_results_pbft}
use b7s.Node.Sending.{send_to_many}
use b7s.Node.Cluster.{form_cluster}

-- `request.Execute`.
pub record ExecuteMessage : Type 0 where
  pub trace_info : TraceInfo
  pub request : ExecuteRequest
  pub topic : Text
  pub request_id : Text
  pub timestamp : ℕ

-- The messages of the head node, each to the peers that were chosen.
pub data HeadAction : Type 0 where
  asked_to_form asked_to_execute asked_to_disband : List PeerId → HeadAction

pub data HeadError : Type 0 where
  not_published roll_call_timed_out not_enough_nodes : HeadError
  cluster_not_formed not_signed not_sent : HeadError

pub record Finished : Type 0 where
  pub code : Code
  pub results : ResultMap
  pub cluster : List PeerId
  pub error : Option HeadError
  -- In their order.
  pub actions : List HeadAction

pub record HeadEnv : Type 0 where
  pub keys : Env
  pub default_consensus : ConsensusType
  pub now : ℕ
  -- Whether the roll call was published, and what the node hears after that.
  pub published : Bool
  pub events : List RollCallEvent
  pub peer_text : PeerId → Text
  pub cluster_payload : Text → List PeerId → ConsensusType → Option Text
  pub confirmations : PeerId → Option Code
  pub execute_payload : ExecuteMessage → Option Text
  pub delivers : PeerId → Text → Bool
  -- The responses of the peers that were asked, or the end of the wait, in their order.
  pub arrivals : List PeerId → List (PeerId × Option ResultMap)

abbrev pub failed : Code → List PeerId → HeadError → List HeadAction → Finished
failed code peers error actions = record {
  code = code;
  results = [];
  cluster = peers;
  error = some error;
  actions = actions;
}

abbrev pub default_threshold : Fraction
default_threshold = record { numerator = 3; denominator = 5 }

unfoldable pub determine_threshold : Fraction → Fraction
determine_threshold t =
    if ltb 0 t.numerator && leb t.numerator t.denominator then t else default_threshold

-- The code without PBFT, from how many responded. Fractions are compared exactly.
unfoldable pub respond_code : Fraction → ℕ → ℕ → Code
respond_code threshold have total =
    if nat_beq have 0
    then Code.no_content
    else if ltb (have * threshold.denominator) (threshold.numerator * total)
    then Code.partial_content
    else Code.ok

-- The code with PBFT: that of a result, if there is one.
unfoldable pub pbft_code : ResultMap → Code
pbft_code [] = Code.ok
pbft_code ((peer, res) ∷ results) = res.result.code

module _ (env : HeadEnv) (request_id : Text) where
  unfoldable pub collect : ConsensusType → ExecuteRequest → List PeerId → List HeadAction → Finished
  collect algo req peers actions =
      let arrivals = env.arrivals peers in
      let agreed = gather_execution_results_pbft env.keys peers arrivals in
      let all = gather_execution_results arrivals in
      if is_pbft algo
      then record {
        code = pbft_code agreed;
        results = agreed;
        cluster = peers;
        error = none;
        actions = actions;
      }
      else record {
        code = respond_code (determine_threshold req.config.threshold) (length all) (length peers);
        results = all;
        cluster = peers;
        error = none;
        actions = actions;
      }

  -- The request is sent to all peers, if there is consensus, and else to any of them.
  unfoldable pub request_execution :
      ConsensusType → ExecuteRequest → ExecuteRequest → List PeerId → List HeadAction → Finished
  request_execution algo req signed peers actions =
      let payload = env.execute_payload (record {
        trace_info = [];
        request = signed;
        topic = [];
        request_id = request_id;
        timestamp = env.now;
      }) in
      let asked = actions ++ asked_to_execute peers ∷ [] in
      elim (send_to_many env.delivers peers payload (consensus_required algo)) [
        | err e ↦ failed Code.error peers not_sent asked
        | ok done ↦ collect algo req peers asked
      ]

  -- Phase 3.
  unfoldable pub execute_on :
      ConsensusType → ExecuteRequest → List PeerId → List HeadAction → Finished
  execute_on algo req peers actions =
      let unsigned = request_execution algo req req peers actions in
      if is_pbft algo
      then elim (sign_request env.keys req) [
        | Action.err e ↦ failed Code.error peers not_signed actions
        | Action.ok signed ↦ request_execution algo req signed peers actions
      ]
      else unsigned

  -- The deferred `disbandCluster`.
  abbrev pub then_disband : List PeerId → Finished → Finished
  then_disband peers out = record out { actions = out.actions ++ asked_to_disband peers ∷ [] }

  -- Phases 2 and 3.
  unfoldable pub execute_with : ConsensusType → ExecuteRequest → List PeerId → Finished
  execute_with algo req peers =
      let asked = asked_to_form peers ∷ [] in
      if consensus_required algo
      then elim (form_cluster env.delivers env.peer_text env.confirmations
          (env.cluster_payload request_id peers algo) peers) [
            | err e ↦ failed Code.error [] cluster_not_formed asked
            | ok done ↦ then_disband peers (execute_on algo req peers asked)
          ]
      else execute_on algo req peers []

  -- The consensus of the request, or the default of the node if it makes no sense.
  unfoldable pub consensus_of : ExecuteRequest → ConsensusType
  consensus_of req = elim (parse_consensus req.config.consensus_algorithm) [
    | none ↦ env.default_consensus
    | some algo ↦ algo
  ]

  -- `none` while the roll call still waits.
  unfoldable pub head_execute : ExecuteRequest → Option Finished
  head_execute req =
      let algo = consensus_of req in
      let node_count = if leb 1 req.config.node_count then some req.config.node_count else none in
      if not env.published
      then some (failed Code.error [] not_published [])
      else elim (execute_roll_call (is_pbft algo) req.function_id node_count env.events) [
        | waiting peers ↦ none
        | roll_call_timeout ↦ some (failed Code.timeout [] roll_call_timed_out [])
        | too_few_for_pbft n ↦ some (failed Code.error [] not_enough_nodes [])
        | reported peers ↦ some (execute_with algo req peers)
      ]
