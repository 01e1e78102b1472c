-- ===== src/Pbft/Serialization/Unpack/NullRequests.antt =====
-- Null requests have the empty peer ID as their origin, and cannot be unpacked if its text cannot be read.
use b7s.Common.{ℕ, List, [], ◌∷◌, Option, none, some, ◌≡◌, refl, sym, subst, In, inl, inr}
use b7s.Common.Text.{Text, text_beq}
use b7s.Models.{TraceInfo}
use b7s.Pbft.Message.{PrePrepare, NewView, null_request, new_view}
use b7s.Pbft.Json.{Json, member_of, encode_list, decode_list, ◌>>=◌, encode_map, decode_map}
use b7s.Pbft.Json.Keys.{by_text}
use b7s.Pbft.Serialization.{
  Forms, message_envelope, request_members, marshal_request, unmarshal_request, pre_prepare_members,
  marshal_pre_prepare, unmarshal_pre_prepare,
}
use b7s.Pbft.Serialization.Votes.{trace_back}
use b7s.Pbft.Serialization.Views.{
  new_view_members, marshal_new_view, unmarshal_new_view, marshal_view_change,
  unmarshal_view_change,
}
use b7s.Pbft.Serialization.Unpack.{marshal_message, unpack_as, unpack_message}

abbrev nothing : (B : Type 0) → Option B
nothing B = none

bind-none : {A B : Type 0} (o : Option A) → (o >>= λ a. (nothing B)) ≡ none
unfolding ◌>>=◌
bind-none none = refl
bind-none (some a) = refl

module _ {A : Type 0} (encode : A → Json) (decode : Json → Option A) where
  decode_list-none :
      (xs : List A) (x : A)
      → In x xs
      → decode (encode x) ≡ none
      → decode_list decode (encode_list encode xs) ≡ none
  unfolding decode_list encode_list ◌>>=◌
  decode_list-none [] x i h = absurd i
  decode_list-none (y ∷ xs) x (inl e) h = rw (← e, h) refl
  decode_list-none (y ∷ xs) x (inr i) h =
      rw (decode_list-none xs x i h) (bind-none (decode (encode y)))

module _ (forms : Forms) (time_back : forms.time_parse (forms.time_text 0) ≡ some 0)
    (refused : forms.peer_decode (forms.peer_text []) ≡ none) where
  null_request-none : unmarshal_request forms (marshal_request forms null_request) ≡ none
  unfolding unmarshal_request marshal_request message_envelope request_members member_of ◌>>=◌
      text_beq
  null_request-none = rw (time_back, refused) refl

  pre_prepare-none :
      (t : TraceInfo) (view sequence_number : ℕ) (digest signature : Text)
      → unmarshal_pre_prepare forms (
          marshal_pre_prepare forms (record {
            base = record { trace_info = t };
            view = view;
            sequence_number = sequence_number;
            digest = digest;
            request = null_request;
            signature = signature;
          }))
        ≡ none
  unfolding unmarshal_pre_prepare marshal_pre_prepare message_envelope pre_prepare_members member_of
      ◌>>=◌ text_beq
  pre_prepare-none [] view sequence_number digest [] = rw null_request-none refl
  pre_prepare-none [] view sequence_number digest (b ∷ s) = rw null_request-none refl
  pre_prepare-none (x ∷ t) view sequence_number digest [] =
      rw (trace_back (x ∷ t), null_request-none) refl
  pre_prepare-none (x ∷ t) view sequence_number digest (b ∷ s) =
      rw (trace_back (x ∷ t), null_request-none) refl

  refused_one :
      (p : PrePrepare)
      → p.request ≡ null_request
      → unmarshal_pre_prepare forms (marshal_pre_prepare forms p) ≡ none
  refused_one p e =
      subst
        (λ r.
          unmarshal_pre_prepare forms (marshal_pre_prepare forms (record p { request = r })) ≡ none)
        (sym e) (pre_prepare-none p.base.trace_info p.view p.sequence_number p.digest p.signature)

  -- If the zero time comes back from its text, and the library does not read the text of the empty peer ID: a
  -- new view that fills a gap with the null request is refused by every replica that unpacks it.
  pub unpack_message-new_view_null :
      (n : NewView) (p : PrePrepare)
      → In p n.pre_prepares
      → p.request ≡ null_request
      → unpack_message forms (marshal_message forms (new_view n)) ≡ none
  unfolding unpack_message unpack_as marshal_message ◌>>=◌ message_envelope marshal_new_view
      unmarshal_new_view new_view_members member_of text_beq
  unpack_message-new_view_null n p i e =
      rw
        (decode_list-none (marshal_pre_prepare forms) (unmarshal_pre_prepare forms) n.pre_prepares p
          i (refused_one p e))
        (rw
          (bind-none {B = NewView} (
            decode_map (unmarshal_view_change forms)
              (encode_map (marshal_view_change forms) (by_text forms.peer_text n.messages []))))
          refl)
