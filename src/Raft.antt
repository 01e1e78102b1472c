-- ===== src/Raft.antt =====
-- The replica of the Raft protocol (consensus/raft/fsm.go, consensus/raft/execute.go) and the
-- callbacks that node/consensus.go gives it. The library that keeps the log and elects a leader is
-- a parameter.
pub mod Applied
mod Tests
use b7s.Common.{Bool, List, [], ◌∷◌, Option, none, some, if◌then◌else◌}
use b7s.Common.Text.{Text}
use b7s.Models.{PeerId, ExecuteRequest, ExecuteResult, RuntimeOutput, ExecuteResponse, NodeResult}
use b7s.Models.Code
use b7s.Models.Code.{Code}
use b7s.Node.Results.{ResultMap}
use b7s.Node.Work.{Traces, no_result}

-- `FSMLogEntry`.
pub record LogEntry : Type 0 where
  pub request_id : Text
  pub origin : PeerId
  pub execute : ExecuteRequest

-- What the state machine answers for an entry.
pub data Response : Type 0 where
  executed : ExecuteResult → Response
  not_unmarshalled not_executed : Response

pub record RaftEnv : Type 0 where
  pub own : PeerId
  pub marshal : LogEntry → Option Text
  pub unmarshal : Text → Option LogEntry
  pub execute_function : Text → ExecuteRequest → Option ExecuteResult
  pub metadata : ExecuteRequest → RuntimeOutput → Option Text
  pub is_leader : Bool
  -- Whether the library commits an entry in time.
  pub commits : Text → Bool

pub data ExecuteError : Type 0 where
  not_serialized not_applied execution_failed : ExecuteError

-- The code, the result and the error.
pub record Executed : Type 0 where
  pub code : Code
  pub result : ExecuteResult
  pub error : Option ExecuteError

abbrev pub failed : ExecuteError → Executed
failed e = record { code = Code.error; result = no_result; error = some e }

module _ (env : RaftEnv) where
  -- `singleNodeResultMap` of this node.
  abbrev pub single : NodeResult → ResultMap
  single res = (env.own, res) ∷ []

  unfoldable pub cache_fn : LogEntry → NodeResult → Traces → Traces
  cache_fn req res traces = record traces { cached = (req.request_id, single res) ∷ traces.cached }

  -- The response. Metadata that cannot be had is left empty.
  unfoldable pub answer : LogEntry → NodeResult → ExecuteResponse
  answer req res = record {
    trace_info = [];
    request_id = req.request_id;
    code = res.result.code;
    results = single (record res {
      metadata = elim (env.metadata req.execute res.result.result) [ none ↦ [] | some meta ↦ meta ];
    });
    cluster = record { main = []; peers = [] };
    error_message = [];
  }

  -- A response that cannot be sent is only logged.
  unfoldable pub send_fn : LogEntry → NodeResult → Traces → Traces
  send_fn req res traces = record traces { sent = (req.origin, answer req res) ∷ traces.sent }

  -- `execute.NodeResult` with a result alone.
  abbrev pub node_result : ExecuteResult → NodeResult
  node_result res = record {
    result = res;
    signature = [];
    pbft = record { view = 0; request_timestamp = 0; replica = [] };
    metadata = [];
  }

  -- The processors are those of the node, in their order, and one for metrics.
  unfoldable pub process : LogEntry → ExecuteResult → Traces → Traces
  process entry res traces =
      send_fn entry (node_result res) (cache_fn entry (node_result res) traces)

  unfoldable pub apply : Text → Traces → Response × Traces
  apply payload traces = elim (env.unmarshal payload) [
    | none ↦ (not_unmarshalled, traces)
    | some entry ↦ elim (env.execute_function entry.request_id entry.execute) [
      | none ↦ (not_executed, traces)
      | some res ↦ (executed res, process entry res traces)
    ]
  ]

  -- The library applies the entries of the log in their order.
  unfoldable pub apply_all : List Text → Traces → Traces
  apply_all [] traces = traces
  apply_all (payload ∷ payloads) traces = apply_all payloads (apply payload traces).1

  abbrev pub respond : Response → Executed
  respond (executed value) = record { code = Code.ok; result = value; error = none }
  respond not_unmarshalled = failed execution_failed
  respond not_executed = failed execution_failed

  -- `Replica.Execute`. If the library gives no answer in time, the entry is applied later or never.
  unfoldable pub replica_execute : PeerId → Text → ExecuteRequest → Traces → Executed × Traces
  replica_execute from request_id req traces =
      if env.is_leader
      then elim (env.marshal (record { request_id = request_id; origin = from; execute = req })) [
        | none ↦ (failed not_serialized, traces)
        | some payload ↦
            let (response, after) = apply payload traces in
            if env.commits payload then (respond response, after) else (failed not_applied, traces)
      ]
      else (record { code = Code.no_content; result = no_result; error = none }, traces)
