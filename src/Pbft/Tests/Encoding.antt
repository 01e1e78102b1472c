-- ===== src/Pbft/Tests/Encoding.antt =====
-- The JSON form of messages at concrete inputs.
use b7s.Common.{ℕ, [], ◌∷◌, Option, none, some, ◌≡◌, refl, inl}
use b7s.Common.Text.{Text, text_eq, text_beq}
use b7s.Common.Map.{lookup}
use b7s.Pbft.Message.{NewView, ViewChange, PrePrepare, null_request, no_base, new_view}
use b7s.Pbft.Json.{json_number}
use b7s.Pbft.Serialization.{Forms}
use b7s.Pbft.Serialization.Unpack.{marshal_message, unpack_message, trace_info_from}
use b7s.Pbft.Serialization.Unpack.RoundTrip.{as_received, unpack_message-marshal_message}
use b7s.Pbft.Serialization.Unpack.NullRequests.{unpack_message-new_view_null}
use b7s.Pbft.Tests.Fixtures.{alice, bob, seven, job, proposal, certificate}

-- The empty text is no peer ID.
abbrev read_peer : Text → Option Text
read_peer [] = none
read_peer (b ∷ t) = some (b ∷ t)

abbrev read_time : Text → Option ℕ
read_time (n ∷ []) = some n
read_time _ = none

abbrev forms : Forms
forms = record {
  peer_text = λ id. id;
  peer_decode = read_peer;
  time_text = λ n. n ∷ [];
  time_parse = read_time;
  encode_execute = λ e. json_number 0;
  decode_execute = λ j. some job.execute;
}

abbrev changed : ViewChange
changed = record { base = no_base; view = 1; prepares = certificate 0 1 ∷ []; signature = seven }

-- A new view with a request, and one that fills a gap.
abbrev opened : NewView
opened = record {
  base = record { trace_info = (seven, seven) ∷ [] };
  view = 1;
  messages = (alice, changed) ∷ (bob, changed) ∷ [];
  pre_prepares = proposal 1 1 ∷ [];
  signature = seven;
}

abbrev filled : PrePrepare
filled = record (proposal 1 2) { request = null_request }

unpack_message-marshal_message_example :
    (unpack_message forms (marshal_message forms (new_view opened))
      ≡ some (as_received forms (new_view opened)))
    × (trace_info_from (marshal_message forms (new_view opened)) ≡ none)
unfolding lookup text_beq
unpack_message-marshal_message_example = unpack_message-marshal_message forms (new_view opened) (
  (refl, (refl, tt)),
  (refl, (refl, tt)),
  (
    (((refl, refl, refl), (refl, (refl, tt)), (refl, (refl, tt))), tt),
    ((((refl, refl, refl), (refl, (refl, tt)), (refl, (refl, tt))), tt), tt),
  ),
  ((refl, refl, refl), tt),
)

unpack_message-new_view_null_example :
    unpack_message forms
      (marshal_message forms (new_view (record opened { pre_prepares = filled ∷ [] })))
    ≡ none
unpack_message-new_view_null_example =
    unpack_message-new_view_null forms refl refl (record opened { pre_prepares = filled ∷ [] })
      filled (inl refl) refl
