-- ===== src/Pbft/Serialization/Views.antt =====
-- The JSON form of the messages of a view change (consensus/pbft/serialization.go).
use b7s.Common.{[], Option, some}
use b7s.Common.Text.{codes}
use b7s.Pbft.Message.{PrePrepare, PrepareInfo, ViewChange, NewView, no_base, null_request}
use b7s.Pbft.Json.{
  Json, json_number, json_text, json_array, json_object, Members, last_member, member, member_of,
  member_unless_empty, number_or_zero, text_or_empty, members_of, encode_list, list_or_empty,
  encode_map, map_or_empty, ◌>>=◌,
}
use b7s.Pbft.Json.Keys.{by_text, by_id}
use b7s.Pbft.Serialization.{
  Forms, message_record, message_envelope, trace_member, decode_trace, or_zero, marshal_prepare,
  unmarshal_prepare, marshal_pre_prepare, unmarshal_pre_prepare,
}

-- `PrePrepare{}`.
abbrev pub zero_pre_prepare : PrePrepare
zero_pre_prepare = record {
  base = no_base;
  view = 0;
  sequence_number = 0;
  digest = [];
  request = null_request;
  signature = [];
}

module _ (forms : Forms) where
  unfoldable pub marshal_prepare_info : PrepareInfo → Json
  marshal_prepare_info info = json_object (
      member (codes "view") (json_number info.view) (
        member (codes "sequence_number") (json_number info.sequence_number) (
          member (codes "digest") (json_text info.digest) (
            member (codes "preprepare") (marshal_pre_prepare forms info.pre_prepare) (
              member (codes "prepares")
                (json_object
                  (encode_map marshal_prepare (by_text forms.peer_text info.prepares [])))
                last_member)))))

  unfoldable pub unmarshal_prepare_info : Json → Option PrepareInfo
  unmarshal_prepare_info payload = do
    ms ← members_of payload
    view ← number_or_zero (member_of (codes "view") ms)
    sequence_number ← number_or_zero (member_of (codes "sequence_number") ms)
    digest ← text_or_empty (member_of (codes "digest") ms)
    pre_prepare ←
        or_zero zero_pre_prepare (unmarshal_pre_prepare forms) (member_of (codes "preprepare") ms)
    encoded ← map_or_empty unmarshal_prepare (member_of (codes "prepares") ms)
    prepares ← by_id forms.peer_decode encoded []
    some (record {
      view = view;
      sequence_number = sequence_number;
      digest = digest;
      pre_prepare = pre_prepare;
      prepares = prepares;
    })

  unfoldable pub view_change_members : ViewChange → Members
  view_change_members v = trace_member v.base.trace_info (
      member (codes "view") (json_number v.view) (
        member (codes "prepares") (json_array (encode_list marshal_prepare_info v.prepares))
          (member_unless_empty (codes "signature") v.signature last_member)))

  unfoldable pub marshal_view_change : ViewChange → Json
  marshal_view_change v = message_record 5 (view_change_members v)

  unfoldable pub unmarshal_view_change : Json → Option ViewChange
  unmarshal_view_change payload = do
    envelope ← message_envelope payload
    base ← decode_trace envelope.1
    view ← number_or_zero (member_of (codes "view") envelope.1)
    prepares ← list_or_empty unmarshal_prepare_info (member_of (codes "prepares") envelope.1)
    signature ← text_or_empty (member_of (codes "signature") envelope.1)
    some (record { base = base; view = view; prepares = prepares; signature = signature })

  -- `newViewEncode` has no trace information.
  unfoldable pub new_view_members : NewView → Members
  new_view_members n = member (codes "view") (json_number n.view) (
      member (codes "messages")
        (json_object (encode_map marshal_view_change (by_text forms.peer_text n.messages [])))
        (member (codes "preprepares")
          (json_array (encode_list (marshal_pre_prepare forms) n.pre_prepares))
          (member (codes "signature") (json_text n.signature) last_member)))

  unfoldable pub marshal_new_view : NewView → Json
  marshal_new_view n = message_record 6 (new_view_members n)

  unfoldable pub unmarshal_new_view : Json → Option NewView
  unmarshal_new_view payload = do
    envelope ← message_envelope payload
    view ← number_or_zero (member_of (codes "view") envelope.1)
    encoded ← map_or_empty unmarshal_view_change (member_of (codes "messages") envelope.1)
    pre_prepares ←
        list_or_empty (unmarshal_pre_prepare forms) (member_of (codes "preprepares") envelope.1)
    signature ← text_or_empty (member_of (codes "signature") envelope.1)
    messages ← by_id forms.peer_decode encoded []
    some (record {
      base = no_base;
      view = view;
      messages = messages;
      pre_prepares = pre_prepares;
      signature = signature;
    })
