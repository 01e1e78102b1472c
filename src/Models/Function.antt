-- ===== src/Models/Function.antt =====
-- models/blockless/function.go, models/blockless/function_record.go and models/blockless/peer.go. Hooks and the
-- address information of a peer are kept as the text of their JSON form, and a time as a number.
use b7s.Common.{ℕ, Bool, List}
use b7s.Common.Text.{Text}
use b7s.Models.Execute.{PeerId, Parameter}

pub record FunctionMethod : Type 0 where
  pub name : Text
  pub entry : Text
  pub arguments : List Parameter
  pub env_vars : List Parameter
  pub result_type : Text

pub record Deployment : Type 0 where
  pub cid : Text
  pub checksum : Text
  pub uri : Text
  pub methods : List FunctionMethod
  pub aggregation : Text
  pub nodes : ℕ
  pub file : Text

pub record FunctionInfo : Type 0 where
  pub id : Text
  pub name : Text
  pub version : Text
  pub runtime : Text
  pub extensions : List Text

pub record ManifestRuntime : Type 0 where
  pub checksum : Text
  pub url : Text

pub record FunctionManifest : Type 0 where
  pub id : Text
  pub name : Text
  pub description : Text
  pub function : FunctionInfo
  pub deployment : Deployment
  pub runtime : ManifestRuntime
  pub cached : Bool
  pub hooks : List Text
  pub fs_root_path : Text
  pub entry : Text
  pub content_type : Text
  pub permissions : List Text
  pub drivers_root_path : Text
  pub limited_fuel : ℕ
  pub limited_memory : ℕ

pub record FunctionRecord : Type 0 where
  pub cid : Text
  pub url : Text
  pub manifest : FunctionManifest
  pub archive : Text
  pub files : Text
  pub updated_at : ℕ
  pub last_retrieved : ℕ

pub record Peer : Type 0 where
  pub id : PeerId
  pub multi_addr : Text
  pub addr_info : Text
