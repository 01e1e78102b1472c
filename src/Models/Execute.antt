-- ===== src/Models/Execute.antt =====
-- models/execute/request.go, models/execute/request_attributes.go, models/execute/result.go and
-- models/response/execute.go. The resource usage and the metadata, which the code only carries, are
-- kept as the text of their JSON form.
use b7s.Common.{ℕ, Bool, false, List, [], Option, none}
use b7s.Common.Text.{Text}
use b7s.Common.Map.{Map}

-- `peer.ID` is a Go string.
abbrev pub PeerId : Type 0
PeerId = Text

pub record Parameter : Type 0 where
  pub name : Text
  pub value : Text

-- `execute.AttributeAttestors`.
pub record AttributeAttestors : Type 0 where
  pub each : List PeerId
  pub one_of : List PeerId

-- `execute.Attributes`.
pub record Attributes : Type 0 where
  pub attestation_required : Bool
  pub values : List Parameter
  pub attestors : AttributeAttestors

-- `execute.BLSRuntimeConfig`.
pub record RuntimeConfig : Type 0 where
  pub entry : Text
  pub execution_time : ℕ
  pub debug_info : Bool
  pub fuel : ℕ
  pub memory : ℕ
  pub logger : Text
  pub drivers_root_path : Text
  pub input : Text
  pub fs_root : Text

pub record ResultAggregation : Type 0 where
  pub enable : Bool
  pub type : Text
  pub parameters : List Parameter

-- A float64 from 0 on, as the fraction that it stands for.
pub record Fraction : Type 0 where
  pub numerator : ℕ
  pub denominator : ℕ

-- `execute.Config`. A node count or timeout below zero has the effect of zero.
pub record ExecuteConfig : Type 0 where
  pub runtime : RuntimeConfig
  pub environment : List Parameter
  pub stdin : Option Text
  pub permissions : List Text
  pub result_aggregation : ResultAggregation
  pub attributes : Option Attributes
  pub node_count : ℕ
  pub timeout : ℕ
  pub consensus_algorithm : Text
  pub threshold : Fraction

-- Go's zero value.
abbrev pub zero_config : ExecuteConfig
zero_config = record {
  runtime = record {
    entry = [];
    execution_time = 0;
    debug_info = false;
    fuel = 0;
    memory = 0;
    logger = [];
    drivers_root_path = [];
    input = [];
    fs_root = [];
  };
  environment = [];
  stdin = none;
  permissions = [];
  result_aggregation = record { enable = false; type = []; parameters = [] };
  attributes = none;
  node_count = 0;
  timeout = 0;
  consensus_algorithm = [];
  threshold = record { numerator = 0; denominator = 1 };
}

-- `execute.Request`.
pub record ExecuteRequest : Type 0 where
  pub function_id : Text
  pub method : Text
  pub parameters : List Parameter
  pub config : ExecuteConfig
  pub signature : Text

pub record RuntimeOutput : Type 0 where
  pub stdout : Text
  pub stderr : Text
  pub exit_code : Text
  pub log : Text

-- `execute.Result`.
pub record ExecuteResult : Type 0 where
  pub code : Text
  pub result : RuntimeOutput
  pub usage : Text

pub record PbftResultInfo : Type 0 where
  pub view : ℕ
  pub request_timestamp : ℕ
  pub replica : PeerId

pub record NodeResult : Type 0 where
  pub result : ExecuteResult
  pub signature : Text
  pub pbft : PbftResultInfo
  pub metadata : Text

abbrev pub TraceInfo : Type 0
TraceInfo = Map Text Text

-- `execute.Cluster`: the peers that an execution was on.
pub record ExecuteCluster : Type 0 where
  pub main : PeerId
  pub peers : List PeerId

-- `response.Execute`.
pub record ExecuteResponse : Type 0 where
  pub trace_info : TraceInfo
  pub request_id : Text
  pub code : Text
  pub results : Map PeerId NodeResult
  pub cluster : ExecuteCluster
  pub error_message : Text
