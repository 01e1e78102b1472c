-- ===== src/Pbft/Serialization/Votes.antt =====
-- Prepares, commits, requests and pre-prepares come back as they went.
use b7s.Common.{ℕ, [], ◌∷◌, some, ◌≡◌, refl, All}
use b7s.Common.Text.{Text, text_beq}
use b7s.Models.{TraceInfo, ExecuteRequest, PeerId}
use b7s.Pbft.Message.{Request, PrePrepare, Prepare, Commit}
use b7s.Pbft.Json.{json_text, member_of, encode_map, decode_map, ◌>>=◌}
use b7s.Pbft.Json.Collections.{decode-encode_map}
use b7s.Pbft.Json.Keys.{Decodes}
use b7s.Pbft.Serialization.{
  Forms, message_envelope, decode_text, vote_members, marshal_prepare, unmarshal_prepare,
  marshal_commit, unmarshal_commit, request_members, marshal_request, unmarshal_request,
  pre_prepare_members, marshal_pre_prepare, unmarshal_pre_prepare,
}

pub trace_back : (info : TraceInfo) → decode_map decode_text (encode_map json_text info) ≡ some info
trace_back info =
    decode-encode_map (λ t. Unit {0}) json_text decode_text (λ t h. refl) info (every info)
  where
    every : (info : TraceInfo) → All (λ x. Unit {0}) info
    every [] = tt
    every (x ∷ info) = (tt, every info)

prepare_back :
    (t : TraceInfo) (view sequence_number : ℕ) (digest signature : Text)
    → unmarshal_prepare (
        marshal_prepare (record {
          base = record { trace_info = t };
          view = view;
          sequence_number = sequence_number;
          digest = digest;
          signature = signature;
        }))
      ≡ some (record {
        base = record { trace_info = t };
        view = view;
        sequence_number = sequence_number;
        digest = digest;
        signature = signature;
      })
unfolding unmarshal_prepare marshal_prepare message_envelope vote_members member_of ◌>>=◌ text_beq
prepare_back [] view sequence_number digest [] = refl
prepare_back [] view sequence_number digest (b ∷ s) = refl
prepare_back (x ∷ t) view sequence_number digest [] = rw (trace_back (x ∷ t)) refl
prepare_back (x ∷ t) view sequence_number digest (b ∷ s) = rw (trace_back (x ∷ t)) refl

pub unmarshal-marshal_prepare : (v : Prepare) → unmarshal_prepare (marshal_prepare v) ≡ some v
unmarshal-marshal_prepare v =
    prepare_back v.base.trace_info v.view v.sequence_number v.digest v.signature

commit_back :
    (t : TraceInfo) (view sequence_number : ℕ) (digest signature : Text)
    → unmarshal_commit (
        marshal_commit (record {
          base = record { trace_info = t };
          view = view;
          sequence_number = sequence_number;
          digest = digest;
          signature = signature;
        }))
      ≡ some (record {
        base = record { trace_info = t };
        view = view;
        sequence_number = sequence_number;
        digest = digest;
        signature = signature;
      })
unfolding unmarshal_commit marshal_commit message_envelope vote_members member_of ◌>>=◌ text_beq
commit_back [] view sequence_number digest [] = refl
commit_back [] view sequence_number digest (b ∷ s) = refl
commit_back (x ∷ t) view sequence_number digest [] = rw (trace_back (x ∷ t)) refl
commit_back (x ∷ t) view sequence_number digest (b ∷ s) = rw (trace_back (x ∷ t)) refl

pub unmarshal-marshal_commit : (v : Commit) → unmarshal_commit (marshal_commit v) ≡ some v
unmarshal-marshal_commit v =
    commit_back v.base.trace_info v.view v.sequence_number v.digest v.signature

module _ (forms : Forms) where
  -- The origin, the time and the execution request come back from their own forms.
  abbrev pub IsReadable : Request → Type 0
  IsReadable r =
      Decodes forms.peer_text forms.peer_decode r.origin
      × (forms.time_parse (forms.time_text r.timestamp) ≡ some r.timestamp)
      × (forms.decode_execute (forms.encode_execute r.execute) ≡ some r.execute)

  request_back :
      (t : TraceInfo) (id : Text) (timestamp : ℕ) (origin : PeerId) (execute : ExecuteRequest)
      → IsReadable (record {
        base = record { trace_info = t };
        id = id;
        timestamp = timestamp;
        origin = origin;
        execute = execute;
      })
      → unmarshal_request forms (
          marshal_request forms (record {
            base = record { trace_info = t };
            id = id;
            timestamp = timestamp;
            origin = origin;
            execute = execute;
          }))
        ≡ some (record {
          base = record { trace_info = t };
          id = id;
          timestamp = timestamp;
          origin = origin;
          execute = execute;
        })
  unfolding unmarshal_request marshal_request message_envelope request_members member_of ◌>>=◌
      text_beq
  request_back [] id timestamp origin execute (d, n, e) = rw (n, d, e) refl
  request_back (x ∷ t) id timestamp origin execute (d, n, e) = rw (trace_back (x ∷ t), n, d, e) refl

  pub unmarshal-marshal_request :
      (r : Request) → IsReadable r → unmarshal_request forms (marshal_request forms r) ≡ some r
  unmarshal-marshal_request r d =
      request_back r.base.trace_info r.id r.timestamp r.origin r.execute d

  pre_prepare_back :
      (t : TraceInfo) (view sequence_number : ℕ) (digest : Text) (req : Request) (signature : Text)
      → IsReadable req
      → unmarshal_pre_prepare forms (
          marshal_pre_prepare forms (record {
            base = record { trace_info = t };
            view = view;
            sequence_number = sequence_number;
            digest = digest;
            request = req;
            signature = signature;
          }))
        ≡ some (record {
          base = record { trace_info = t };
          view = view;
          sequence_number = sequence_number;
          digest = digest;
          request = req;
          signature = signature;
        })
  unfolding unmarshal_pre_prepare marshal_pre_prepare message_envelope pre_prepare_members member_of
      ◌>>=◌ text_beq
  pre_prepare_back [] view sequence_number digest req [] d =
      rw (unmarshal-marshal_request req d) refl
  pre_prepare_back [] view sequence_number digest req (b ∷ s) d =
      rw (unmarshal-marshal_request req d) refl
  pre_prepare_back (x ∷ t) view sequence_number digest req [] d =
      rw (trace_back (x ∷ t), unmarshal-marshal_request req d) refl
  pre_prepare_back (x ∷ t) view sequence_number digest req (b ∷ s) d =
      rw (trace_back (x ∷ t), unmarshal-marshal_request req d) refl

  pub unmarshal-marshal_pre_prepare :
      (p : PrePrepare)
      → IsReadable p.request
      → unmarshal_pre_prepare forms (marshal_pre_prepare forms p) ≡ some p
  unmarshal-marshal_pre_prepare p d =
      pre_prepare_back p.base.trace_info p.view p.sequence_number p.digest p.request p.signature d
