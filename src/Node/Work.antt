-- ===== src/Node/Work.antt =====
-- An execution on a worker (node/worker_execute.go).
pub mod Answered
use b7s.Common.{
  ℕ, Bool, true, false, List, [], ◌∷◌, Option, none, some, length, nat_beq, if◌then◌else◌, ◌==◌,
}
use b7s.Common.Text.{Text, text_eq}
use b7s.Common.Map.{Map, lookup}
use b7s.Common.Outcome.{Outcome, ok, err}
use b7s.Models.{PeerId, ExecuteRequest, ExecuteResult, RuntimeOutput, ExecuteResponse, NodeResult}
use b7s.Models.Code
use b7s.Models.Code.{Code}
use b7s.Models.Consensus.{ConsensusType, parse_consensus, consensus_required}
use b7s.Node.Results.{ResultMap}
use b7s.Node.Head.{ExecuteMessage}
use b7s.Node.Cluster.Member.{Cluster}

pub data WorkError : Type 0 where
  no_request_id response_not_sent : WorkError
  not_looked_up unknown_consensus not_executed no_cluster : WorkError

-- What a worker executes by; `none` is an error, and an execution that fails has a result as well.
pub record WorkEnv (R : Type 0) : Type 0 where
  pub own : PeerId
  pub is_installed : Text → Option Bool
  pub execute_function : Text → ExecuteRequest → Bool × ExecuteResult
  pub clusters : Map Text (Cluster R)
  pub execute_in : Cluster R → PeerId → Text → ℕ → ExecuteRequest → Option (Code × ExecuteResult)
  pub metadata : ExecuteRequest → RuntimeOutput → Option Text
  pub delivers : PeerId → ExecuteResponse → Bool

-- `execute.Result{}`.
abbrev pub no_result : ExecuteResult
no_result = record {
  code = [];
  result = record { stdout = []; stderr = []; exit_code = []; log = [] };
  usage = [];
}

-- The code, the result and the error.
pub record Worked : Type 0 where
  pub code : Code
  pub result : ExecuteResult
  pub error : Option WorkError

abbrev pub failed : Code → Option WorkError → Worked
failed code error = record { code = code; result = no_result; error = error }

-- What the worker caches by the request, and the responses that it tries to send.
pub record Traces : Type 0 where
  pub cached : List (Text × ResultMap)
  pub sent : List (PeerId × ExecuteResponse)

module _ {R : Type 0} (env : WorkEnv R) where
  unfoldable pub execute_alone : Text → ExecuteRequest → Worked
  execute_alone request_id req =
      let (good, res) = env.execute_function request_id req in
      record { code = res.code; result = res; error = if good then none else some not_executed }

  unfoldable pub execute_in_cluster : Text → ℕ → ExecuteRequest → PeerId → Worked
  execute_in_cluster request_id timestamp req from = elim (lookup request_id env.clusters) [
    | none ↦ failed Code.error (some no_cluster)
    | some cluster ↦ elim (env.execute_in cluster from request_id timestamp req) [
      | none ↦ failed Code.error (some not_executed)
      | some (code, value) ↦ record { code = code; result = value; error = none }
    ]
  ]

  unfoldable pub execute_installed : Text → ℕ → ExecuteRequest → PeerId → Worked
  execute_installed request_id timestamp req from =
      elim (parse_consensus req.config.consensus_algorithm) [
        | none ↦ failed Code.error (some unknown_consensus)
        | some algo ↦
            if consensus_required algo
            then execute_in_cluster request_id timestamp req from
            else execute_alone request_id req
      ]

  unfoldable pub worker_execute : Text → ℕ → ExecuteRequest → PeerId → Worked
  worker_execute request_id timestamp req from = elim (env.is_installed req.function_id) [
    | none ↦ failed Code.error (some not_looked_up)
    | some false ↦ failed Code.not_found none
    | some true ↦ execute_installed request_id timestamp req from
  ]

  -- The result of this worker alone. Metadata that cannot be had is left empty.
  unfoldable pub own_results : ExecuteRequest → Worked → ResultMap
  own_results req done =
      (
        env.own,
        record {
          result = done.result;
          signature = [];
          pbft = record { view = 0; request_timestamp = 0; replica = [] };
          metadata = elim (env.metadata req done.result.result) [ none ↦ [] | some meta ↦ meta ];
        },
      )
      ∷ []

  abbrev pub answer_to : ExecuteMessage → Worked → ExecuteResponse
  answer_to msg done = record {
    trace_info = msg.trace_info;
    request_id = msg.request_id;
    code = done.code;
    results = own_results msg.request done;
    cluster = record { main = []; peers = [] };
    error_message = [];
  }

  -- The response is sent whatever came of the execution.
  unfoldable pub report_work :
      PeerId → ExecuteMessage → Worked → Traces → Outcome WorkError (Unit {0}) × Traces
  report_work from msg done traces =
      let res = answer_to msg done in
      if done.code == Code.no_content then (ok tt, traces) else (
        if env.delivers from res then ok tt else err response_not_sent,
        record {
          cached = (msg.request_id, own_results msg.request done) ∷ traces.cached;
          sent = (from, res) ∷ traces.sent;
        },
      )

  unfoldable pub worker_process_execute :
      PeerId → ExecuteMessage → Traces → Outcome WorkError (Unit {0}) × Traces
  worker_process_execute from msg traces =
      if nat_beq (length msg.request_id) 0
      then (err no_request_id, traces)
      else report_work from msg (worker_execute msg.request_id msg.timestamp msg.request from)
          traces
