-- ===== src/Pbft/Serialization/Unpack/RoundTrip.antt =====
-- What is unpacked is what was marshalled.
use b7s.Common.{ℕ, List, [], ◌∷◌, none, some, ◌≡◌, refl, All}
use b7s.Common.Text.{Text, text_eq, text_beq}
use b7s.Common.Map.{Map}
use b7s.Common.Map.Count.{Distinct}
use b7s.Models.{TraceInfo, PeerId}
use b7s.Pbft.Message.{
  Prepare, PrepareInfo, ViewChange, NewView, no_base, Message, request, pre_prepare, prepare,
  commit, view_change, new_view,
}
use b7s.Pbft.Json.{member_of, encode_map, decode_map, encode_list, decode_list, ◌>>=◌}
use b7s.Pbft.Json.Collections.{decode-encode_map, decode-encode_list}
use b7s.Pbft.Json.Keys.{Decodes, by_text, by_id-by_text, by_text-All}
use b7s.Pbft.Serialization.{
  Forms, message_envelope, marshal_prepare, unmarshal_prepare, marshal_commit, marshal_request,
  marshal_pre_prepare, unmarshal_pre_prepare,
}
use b7s.Pbft.Serialization.Votes.{
  IsReadable, trace_back, unmarshal-marshal_prepare, unmarshal-marshal_commit,
  unmarshal-marshal_request, unmarshal-marshal_pre_prepare,
}
use b7s.Pbft.Serialization.Views.{
  marshal_prepare_info, unmarshal_prepare_info, view_change_members, marshal_view_change,
  unmarshal_view_change, new_view_members, marshal_new_view, unmarshal_new_view,
}
use b7s.Pbft.Serialization.Unpack.{marshal_message, unpack_as, unpack_message, trace_info_from}

every : {A : Type 0} (xs : List A) → All (λ x. Unit {0}) xs
every [] = tt
every (x ∷ xs) = (tt, every xs)

module _ (forms : Forms) where
  abbrev IsId : PeerId → Type 0
  IsId id = Decodes forms.peer_text forms.peer_decode id

  abbrev IsInfo : PrepareInfo → Type 0
  IsInfo info =
      IsReadable forms info.pre_prepare.request
      × Distinct info.prepares
      × All (λ e. IsId e.0) info.prepares

  prepares_back :
      (m : Map Text Prepare) → decode_map unmarshal_prepare (encode_map marshal_prepare m) ≡ some m
  prepares_back m =
      decode-encode_map (λ p. Unit {0}) marshal_prepare unmarshal_prepare
        (λ p h. unmarshal-marshal_prepare p) m (every m)

  prepare_info_back :
      (info : PrepareInfo)
      → IsInfo info
      → unmarshal_prepare_info forms (marshal_prepare_info forms info) ≡ some info
  unfolding unmarshal_prepare_info marshal_prepare_info member_of ◌>>=◌ text_beq
  prepare_info_back info (i, d, ids) =
      rw
        (
          unmarshal-marshal_pre_prepare forms info.pre_prepare i,
          prepares_back,
          by_id-by_text forms.peer_text forms.peer_decode info.prepares d ids,
        )
        refl

  infos_back :
      (infos : List PrepareInfo)
      → All IsInfo infos
      → decode_list (unmarshal_prepare_info forms) (encode_list (marshal_prepare_info forms) infos)
        ≡ some infos
  infos_back infos h =
      decode-encode_list IsInfo (marshal_prepare_info forms) (unmarshal_prepare_info forms)
        prepare_info_back infos h

  view_change_back :
      (t : TraceInfo) (view : ℕ) (infos : List PrepareInfo) (signature : Text)
      → All IsInfo infos
      → unmarshal_view_change forms (
          marshal_view_change forms (record {
            base = record { trace_info = t };
            view = view;
            prepares = infos;
            signature = signature;
          }))
        ≡ some (record {
          base = record { trace_info = t };
          view = view;
          prepares = infos;
          signature = signature;
        })
  unfolding unmarshal_view_change marshal_view_change message_envelope view_change_members member_of
      ◌>>=◌ text_beq
  view_change_back [] view infos [] h = rw (infos_back infos h) refl
  view_change_back [] view infos (b ∷ s) h = rw (infos_back infos h) refl
  view_change_back (x ∷ t) view infos [] h = rw (trace_back (x ∷ t), infos_back infos h) refl
  view_change_back (x ∷ t) view infos (b ∷ s) h = rw (trace_back (x ∷ t), infos_back infos h) refl

  abbrev IsViewChange : ViewChange → Type 0
  IsViewChange v = All IsInfo v.prepares

  changes_back :
      (m : Map Text ViewChange)
      → All (λ e. IsViewChange e.1) m
      → decode_map (unmarshal_view_change forms) (encode_map (marshal_view_change forms) m) ≡ some m
  changes_back m h =
      decode-encode_map IsViewChange (marshal_view_change forms) (unmarshal_view_change forms)
        (λ v i. view_change_back v.base.trace_info v.view v.prepares v.signature i) m h

  abbrev IsNewView : NewView → Type 0
  IsNewView n =
      Distinct n.messages
      × All (λ e. IsId e.0) n.messages
      × All (λ e. IsViewChange e.1) n.messages
      × All (λ p. IsReadable forms p.request) n.pre_prepares

  new_view_back :
      (n : NewView)
      → IsNewView n
      → unmarshal_new_view forms (marshal_new_view forms n) ≡ some (record n { base = no_base })
  unfolding unmarshal_new_view marshal_new_view message_envelope new_view_members member_of ◌>>=◌
      text_beq
  new_view_back n (d, ids, changes, requests) =
      rw
        (
          changes_back (by_text forms.peer_text n.messages [])
              (by_text-All IsViewChange forms.peer_text n.messages [] changes tt),
          decode-encode_list (λ p. IsReadable forms p.request) (marshal_pre_prepare forms)
              (unmarshal_pre_prepare forms) (unmarshal-marshal_pre_prepare forms) n.pre_prepares
              requests,
          by_id-by_text forms.peer_text forms.peer_decode n.messages d ids,
        )
        refl

  -- A message whose maps have each key once, and whose peer IDs, times and execution requests come back
  -- from their own forms.
  abbrev pub IsMade : Message → Type 0
  IsMade (request r) = IsReadable forms r
  IsMade (pre_prepare p) = IsReadable forms p.request
  IsMade (prepare p) = Unit
  IsMade (commit c) = Unit
  IsMade (view_change v) = IsViewChange v
  IsMade (new_view n) = IsNewView n

  -- The trace information of a new view is lost.
  abbrev pub as_received : Message → Message
  as_received (new_view n) = new_view (record n { base = no_base })
  as_received m = m

  unpacked :
      (m : Message)
      → IsMade m
      → unpack_message forms (marshal_message forms m) ≡ some (as_received m)
  unfolding unpack_message unpack_as marshal_message ◌>>=◌ message_envelope marshal_request
      marshal_pre_prepare marshal_prepare marshal_commit marshal_view_change marshal_new_view
      member_of text_beq
  unpacked (request r) h = rw (unmarshal-marshal_request forms r h) refl
  unpacked (pre_prepare p) h = rw (unmarshal-marshal_pre_prepare forms p h) refl
  unpacked (prepare p) h = rw (unmarshal-marshal_prepare p) refl
  unpacked (commit c) h = rw (unmarshal-marshal_commit c) refl
  unpacked (view_change v) h =
      rw (view_change_back v.base.trace_info v.view v.prepares v.signature h) refl
  unpacked (new_view n) h = rw (new_view_back n h) refl

  untraced : (m : Message) → trace_info_from (marshal_message forms m) ≡ none
  unfolding trace_info_from marshal_message marshal_request marshal_pre_prepare marshal_prepare
      marshal_commit marshal_view_change marshal_new_view member_of ◌>>=◌ text_beq
  untraced (request r) = refl
  untraced (pre_prepare p) = refl
  untraced (prepare p) = refl
  untraced (commit c) = refl
  untraced (view_change v) = refl
  untraced (new_view n) = refl

  -- A message whose maps have each key once, and whose peer IDs, times and execution requests come back
  -- from the forms that the libraries give them, comes back from its payload, but for the trace
  -- information of a new view, which is lost. At the top of the payload no trace information
  -- is found, whatever the message has.
  pub unpack_message-marshal_message :
      (m : Message)
      → IsMade m
      → (unpack_message forms (marshal_message forms m) ≡ some (as_received m))
        × (trace_info_from (marshal_message forms m) ≡ none)
  unpack_message-marshal_message m h = (unpacked m h, untraced m)
