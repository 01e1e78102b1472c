-- ===== src/Pbft/Serialization/Unpack.antt =====
-- Marshalling and unpacking any message (unpackMessage in consensus/pbft/serialization.go), and the trace
-- information of a payload (consensus/pbft/tracing.go).
pub mod RoundTrip
pub mod NullRequests
use b7s.Common.{ℕ, List, [], ◌∷◌, Option, none, some, if◌then◌else◌, ◌==◌, nat_eq}
use b7s.Common.Text.{Text, codes}
use b7s.Models.{TraceInfo}
use b7s.Pbft.Message.{Message, request, pre_prepare, prepare, commit, view_change, new_view}
use b7s.Pbft.Json.{Json, member_of, members_of, map_or_empty, ◌>>=◌}
use b7s.Pbft.Serialization.{
  Forms, message_envelope, decode_text, marshal_request, unmarshal_request, marshal_pre_prepare,
  unmarshal_pre_prepare, marshal_prepare, unmarshal_prepare, marshal_commit, unmarshal_commit,
}
use b7s.Pbft.Serialization.Views.{
  marshal_view_change, unmarshal_view_change, marshal_new_view, unmarshal_new_view,
}

module _ (forms : Forms) where
  unfoldable pub marshal_message : Message → Json
  marshal_message (request r) = marshal_request forms r
  marshal_message (pre_prepare p) = marshal_pre_prepare forms p
  marshal_message (prepare p) = marshal_prepare p
  marshal_message (commit c) = marshal_commit c
  marshal_message (view_change v) = marshal_view_change forms v
  marshal_message (new_view n) = marshal_new_view forms n

  unfoldable pub unpack_as : ℕ → Json → Option Message
  unpack_as type payload =
      if type == 1
      then (unmarshal_request forms payload >>= λ r. some (request r))
      else if type == 2
      then (unmarshal_pre_prepare forms payload >>= λ p. some (pre_prepare p))
      else if type == 3
      then (unmarshal_prepare payload >>= λ p. some (prepare p))
      else if type == 4
      then (unmarshal_commit payload >>= λ c. some (commit c))
      else if type == 5
      then (unmarshal_view_change forms payload >>= λ v. some (view_change v))
      else if type == 6
      then (unmarshal_new_view forms payload >>= λ n. some (new_view n))
      else none

  unfoldable pub unpack_message : Json → Option Message
  unpack_message payload = message_envelope payload >>= λ envelope. unpack_as envelope.0 payload

-- `getTraceInfoFromMessage`; `none` where there is nothing.
unfoldable pub trace_info_from : Json → Option TraceInfo
trace_info_from payload =
    (members_of payload >>= λ ms. map_or_empty decode_text (member_of (codes "carrier") ms))
    >>= λ info. elim info [ [] ↦ none | entry ∷ rest ↦ some (entry ∷ rest) ]
