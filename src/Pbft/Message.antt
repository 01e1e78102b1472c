-- ===== src/Pbft/Message.antt =====
-- consensus/pbft/message.go and consensus/pbft/message_signature.go. The log fields of a message
-- are its own; JSON keys and struct tags are not modelled here.
use b7s.Common.{ℕ, List, []}
use b7s.Common.Text.{Text}
use b7s.Common.Map.{Map}
use b7s.Models.{PeerId, ExecuteRequest, NodeResult, ExecuteResponse, TraceInfo, zero_config}

pub record BaseMessage : Type 0 where
  pub trace_info : TraceInfo

pub record Request : Type 0 where
  pub base : BaseMessage
  pub id : Text
  pub timestamp : ℕ
  pub origin : PeerId
  pub execute : ExecuteRequest

pub record PrePrepare : Type 0 where
  pub base : BaseMessage
  pub view : ℕ
  pub sequence_number : ℕ
  pub digest : Text
  pub request : Request
  pub signature : Text

pub record Prepare : Type 0 where
  pub base : BaseMessage
  pub view : ℕ
  pub sequence_number : ℕ
  pub digest : Text
  pub signature : Text

pub record Commit : Type 0 where
  pub base : BaseMessage
  pub view : ℕ
  pub sequence_number : ℕ
  pub digest : Text
  pub signature : Text

pub record PrepareInfo : Type 0 where
  pub view : ℕ
  pub sequence_number : ℕ
  pub digest : Text
  pub pre_prepare : PrePrepare
  pub prepares : Map PeerId Prepare

pub record ViewChange : Type 0 where
  pub base : BaseMessage
  pub view : ℕ
  pub prepares : List PrepareInfo
  pub signature : Text

pub record NewView : Type 0 where
  pub base : BaseMessage
  pub view : ℕ
  pub messages : Map PeerId ViewChange
  pub pre_prepares : List PrePrepare
  pub signature : Text

abbrev pub no_base : BaseMessage
no_base = record { trace_info = [] }

-- `Request{}`, with Go's zero values; the zero time is 0.
abbrev pub null_request : Request
null_request = record {
  base = no_base;
  id = [];
  timestamp = 0;
  origin = [];
  execute = record {
    function_id = [];
    method = [];
    parameters = [];
    config = zero_config;
    signature = [];
  };
}

-- The values that a replica receives from its peers: the interface `PBFTMessage`.
pub data Message : Type 0 where
  request : Request → Message
  pre_prepare : PrePrepare → Message
  prepare : Prepare → Message
  commit : Commit → Message
  view_change : ViewChange → Message
  new_view : NewView → Message

-- The values that are handed to `json.Marshal`.
pub data Payload : Type 0 where
  message : Message → Payload
  execute_request : ExecuteRequest → Payload
  node_result : NodeResult → Payload
  execute_response : ExecuteResponse → Payload

-- The interfaces `signable` and `TraceableMessage`, and the conversion to `any`.
pub record Signable (M : Type 0) : Type 0 where
  pub as_message : M → Message
  pub signable_record : M → M
  pub set_signature : Text → M → M
  pub get_signature : M → Text
  pub save_trace_context : TraceInfo → M → M

instance abbrev pub pre_prepare_signable : Signable PrePrepare
pre_prepare_signable = record {
  as_message = pre_prepare;
  signable_record = λ p. record p { signature = []; base = no_base };
  set_signature = λ s p. record p { signature = s };
  get_signature = λ p. p.signature;
  save_trace_context = λ t p. record p { base = record { trace_info = t } };
}

instance abbrev pub prepare_signable : Signable Prepare
prepare_signable = record {
  as_message = prepare;
  signable_record = λ p. record p { signature = []; base = no_base };
  set_signature = λ s p. record p { signature = s };
  get_signature = λ p. p.signature;
  save_trace_context = λ t p. record p { base = record { trace_info = t } };
}

instance abbrev pub commit_signable : Signable Commit
commit_signable = record {
  as_message = commit;
  signable_record = λ c. record c { signature = []; base = no_base };
  set_signature = λ s c. record c { signature = s };
  get_signature = λ c. c.signature;
  save_trace_context = λ t c. record c { base = record { trace_info = t } };
}

instance abbrev pub view_change_signable : Signable ViewChange
view_change_signable = record {
  as_message = view_change;
  signable_record = λ v. record v { signature = []; base = no_base };
  set_signature = λ s v. record v { signature = s };
  get_signature = λ v. v.signature;
  save_trace_context = λ t v. record v { base = record { trace_info = t } };
}

instance abbrev pub new_view_signable : Signable NewView
new_view_signable = record {
  as_message = new_view;
  signable_record = λ v. record v { signature = []; base = no_base };
  set_signature = λ s v. record v { signature = s };
  get_signature = λ v. v.signature;
  save_trace_context = λ t v. record v { base = record { trace_info = t } };
}
