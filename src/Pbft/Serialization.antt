-- ===== src/Pbft/Serialization.antt =====
-- The JSON form of the messages (consensus/pbft/serialization.go, with the struct tags of
-- consensus/pbft/message.go). The forms of times, of peer IDs and of execution requests are the libraries', given
-- as functions.
pub mod Votes
pub mod Views
pub mod Unpack
use b7s.Common.{ℕ, List, [], ◌∷◌, Option, none, some, ◌≡◌, ◌==◌, nat_eq, if◌then◌else◌}
use b7s.Common.Text.{Text, codes}
use b7s.Common.Map.{Map}
use b7s.Models.{PeerId, ExecuteRequest, TraceInfo}
use b7s.Pbft.Message.{
  BaseMessage, Request, PrePrepare, Prepare, Commit, PrepareInfo, ViewChange, NewView, Message,
  request, pre_prepare, prepare, commit, view_change, new_view, no_base, null_request,
}
use b7s.Pbft.Json.{
  Json, json_number, json_text, json_array, json_object, Members, last_member, member, member_of,
  member_unless_empty, number_or_zero, text_or_empty, members_of, encode_list, list_or_empty,
  encode_map, map_or_empty, ◌>>=◌,
}
use b7s.Pbft.Json.Keys.{by_text, by_id}

pub record Forms : Type 0 where
  pub peer_text : PeerId → Text
  pub peer_decode : Text → Option PeerId
  pub time_text : ℕ → Text
  pub time_parse : Text → Option ℕ
  pub encode_execute : ExecuteRequest → Json
  pub decode_execute : Json → Option ExecuteRequest

-- `MessageType`.
abbrev pub message_type : Message → ℕ
message_type (request r) = 1
message_type (pre_prepare p) = 2
message_type (prepare p) = 3
message_type (commit c) = 4
message_type (view_change v) = 5
message_type (new_view n) = 6

-- `messageRecord` and `messageEnvelope`.
abbrev pub message_record : ℕ → Members → Json
message_record type data_ = json_object (
    member (codes "type") (json_number type)
      (member (codes "data") (json_object data_) last_member))

unfoldable pub message_envelope : Json → Option (ℕ × Members)
message_envelope payload = do
  ms ← members_of payload
  type ← number_or_zero (member_of (codes "type") ms)
  val ← member_of (codes "data") ms
  content ← members_of val
  some (type, content)

-- The embedded trace information is left out where it is empty.
abbrev pub trace_member : TraceInfo → Members → Members
trace_member [] rest = rest
trace_member (entry ∷ info) rest =
    member (codes "carrier") (json_object (encode_map json_text (entry ∷ info))) rest

abbrev pub decode_text : Json → Option Text
decode_text (json_text t) = some t
decode_text _ = none

abbrev pub decode_trace : Members → Option BaseMessage
decode_trace ms = map_or_empty decode_text (member_of (codes "carrier") ms) >>= λ info.
    some (record { trace_info = info })

-- The fields that prepares and commits share.
unfoldable pub vote_members : TraceInfo → ℕ → ℕ → Text → Text → Members
vote_members trace view sequence_number digest signature = trace_member trace (
    member (codes "view") (json_number view) (
      member (codes "sequence_number") (json_number sequence_number) (
        member (codes "digest") (json_text digest)
          (member_unless_empty (codes "signature") signature last_member))))

unfoldable pub marshal_prepare : Prepare → Json
marshal_prepare p =
    message_record 3 (vote_members p.base.trace_info p.view p.sequence_number p.digest p.signature)

unfoldable pub unmarshal_prepare : Json → Option Prepare
unmarshal_prepare payload = do
  envelope ← message_envelope payload
  base ← decode_trace envelope.1
  view ← number_or_zero (member_of (codes "view") envelope.1)
  sequence_number ← number_or_zero (member_of (codes "sequence_number") envelope.1)
  digest ← text_or_empty (member_of (codes "digest") envelope.1)
  signature ← text_or_empty (member_of (codes "signature") envelope.1)
  some (record {
    base = base;
    view = view;
    sequence_number = sequence_number;
    digest = digest;
    signature = signature;
  })

unfoldable pub marshal_commit : Commit → Json
marshal_commit c =
    message_record 4 (vote_members c.base.trace_info c.view c.sequence_number c.digest c.signature)

unfoldable pub unmarshal_commit : Json → Option Commit
unmarshal_commit payload = do
  envelope ← message_envelope payload
  base ← decode_trace envelope.1
  view ← number_or_zero (member_of (codes "view") envelope.1)
  sequence_number ← number_or_zero (member_of (codes "sequence_number") envelope.1)
  digest ← text_or_empty (member_of (codes "digest") envelope.1)
  signature ← text_or_empty (member_of (codes "signature") envelope.1)
  some (record {
    base = base;
    view = view;
    sequence_number = sequence_number;
    digest = digest;
    signature = signature;
  })

-- A struct that is missing in its object keeps its zero value.
abbrev pub or_zero : {A : Type 0} → A → (Json → Option A) → Option Json → Option A
or_zero zero_value decode none = some zero_value
or_zero zero_value decode (some val) = decode val

module _ (forms : Forms) where
  unfoldable pub request_members : Request → Members
  request_members r = trace_member r.base.trace_info (
      member (codes "id") (json_text r.id) (
        member (codes "timestamp") (json_text (forms.time_text r.timestamp)) (
          member (codes "origin") (json_text (forms.peer_text r.origin))
            (member (codes "execute") (forms.encode_execute r.execute) last_member))))

  unfoldable pub marshal_request : Request → Json
  marshal_request r = message_record 1 (request_members r)

  unfoldable pub unmarshal_request : Json → Option Request
  unmarshal_request payload = do
    envelope ← message_envelope payload
    base ← decode_trace envelope.1
    id ← text_or_empty (member_of (codes "id") envelope.1)
    timestamp ←
        or_zero 0 (λ val. decode_text val >>= forms.time_parse)
          (member_of (codes "timestamp") envelope.1)
    origin ←
        or_zero [] (λ val. decode_text val >>= forms.peer_decode)
          (member_of (codes "origin") envelope.1)
    execute ←
        or_zero null_request.execute forms.decode_execute (member_of (codes "execute") envelope.1)
    some
        (record { base = base; id = id; timestamp = timestamp; origin = origin; execute = execute })

  unfoldable pub pre_prepare_members : PrePrepare → Members
  pre_prepare_members p = trace_member p.base.trace_info (
      member (codes "view") (json_number p.view) (
        member (codes "sequence_number") (json_number p.sequence_number) (
          member (codes "digest") (json_text p.digest) (
            member (codes "request") (marshal_request p.request)
              (member_unless_empty (codes "signature") p.signature last_member)))))

  unfoldable pub marshal_pre_prepare : PrePrepare → Json
  marshal_pre_prepare p = message_record 2 (pre_prepare_members p)

  unfoldable pub unmarshal_pre_prepare : Json → Option PrePrepare
  unmarshal_pre_prepare payload = do
    envelope ← message_envelope payload
    base ← decode_trace envelope.1
    view ← number_or_zero (member_of (codes "view") envelope.1)
    sequence_number ← number_or_zero (member_of (codes "sequence_number") envelope.1)
    digest ← text_or_empty (member_of (codes "digest") envelope.1)
    req ← or_zero null_request unmarshal_request (member_of (codes "request") envelope.1)
    signature ← text_or_empty (member_of (codes "signature") envelope.1)
    some (record {
      base = base;
      view = view;
      sequence_number = sequence_number;
      digest = digest;
      request = req;
      signature = signature;
    })
