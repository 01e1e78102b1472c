-- ===== src/Node/Gate.antt =====
-- Which messages a node handles: the message types of models/blockless/message.go, node/pipeline.go,
-- and the dispatch of node/process.go.
pub mod Accepted
use b7s.Common.{ℕ, Bool, true, false, not, Option, none, some, if◌then◌else◌, ◌==◌, ◌||◌, nat_eq}
use b7s.Common.Text.{Text, text_eq, codes}
use b7s.Models.{PeerId}

-- The messages that have a handler.
pub data MessageKind : Type 0 where
  health_check install_function install_function_response : MessageKind
  roll_call roll_call_response : MessageKind
  execute execute_response : MessageKind
  form_cluster form_cluster_response disband_cluster : MessageKind

abbrev pub message_type : MessageKind → Text
message_type health_check = codes "MsgHealthCheck"
message_type install_function = codes "MsgInstallFunction"
message_type install_function_response = codes "MsgInstallFunctionResponse"
message_type roll_call = codes "MsgRollCall"
message_type roll_call_response = codes "MsgRollCallResponse"
message_type execute = codes "MsgExecute"
message_type execute_response = codes "MsgExecuteResponse"
message_type form_cluster = codes "MsgFormCluster"
message_type form_cluster_response = codes "MsgFormClusterResponse"
message_type disband_cluster = codes "MsgDisbandCluster"

abbrev pub is_type : Text → MessageKind → Bool
is_type msg kind = msg == message_type kind

-- `pipeline.ID`, an int of which two values are named.
abbrev pub pub_sub : ℕ
pub_sub = 1

abbrev pub direct_message : ℕ
direct_message = 2

pub record Pipeline : Type 0 where
  pub id : ℕ
  pub topic : Text

unfoldable pub message_allowed_on_pipeline : Text → Pipeline → Bool
message_allowed_on_pipeline msg pipeline =
    if pipeline.id == direct_message
    then not (is_type msg health_check || is_type msg roll_call)
    else not (
        is_type msg install_function_response
        || (is_type msg execute
            || (is_type msg execute_response
                || (is_type msg form_cluster
                    || (is_type msg form_cluster_response
                        || (is_type msg disband_cluster || is_type msg roll_call_response))))))

pub data NodeRole : Type 0 where
  head_node worker_node : NodeRole

unfoldable pub message_allowed_for_role : NodeRole → Text → Bool
message_allowed_for_role worker_node msg =
    is_type msg health_check
    || (is_type msg install_function
        || (is_type msg roll_call
            || (is_type msg execute || (is_type msg form_cluster || is_type msg disband_cluster))))
message_allowed_for_role head_node msg =
    is_type msg health_check
    || (is_type msg install_function_response
        || (is_type msg roll_call_response
            || (is_type msg execute
                || (is_type msg execute_response || is_type msg form_cluster_response))))

-- What becomes of a message: an error, or a message that is dropped in silence, or the handler.
pub data Disposition : Type 0 where
  unreadable dropped unknown_type : Disposition
  handled_by : MessageKind → Disposition

-- The switch of `processMessage`.
unfoldable pub handler_of : Text → Disposition
handler_of msg =
    if is_type msg health_check
    then handled_by health_check
    else if is_type msg install_function
    then handled_by install_function
    else if is_type msg install_function_response
    then handled_by install_function_response
    else if is_type msg roll_call
    then handled_by roll_call
    else if is_type msg roll_call_response
    then handled_by roll_call_response
    else if is_type msg execute
    then handled_by execute
    else if is_type msg execute_response
    then handled_by execute_response
    else if is_type msg form_cluster
    then handled_by form_cluster
    else if is_type msg form_cluster_response
    then handled_by form_cluster_response
    else if is_type msg disband_cluster
    then handled_by disband_cluster
    else unknown_type

-- The type of the payload is read by the JSON library.
unfoldable pub dispose : (Text → Option Text) → NodeRole → Text → Pipeline → Disposition
dispose get_message_type role payload pipeline = elim (get_message_type payload) [
  | none ↦ unreadable
  | some msg ↦
      if not (message_allowed_on_pipeline msg pipeline)
      then dropped
      else if not (message_allowed_for_role role msg)
      then dropped
      else handler_of msg
]
