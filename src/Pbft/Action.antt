-- ===== src/Pbft/Action.antt =====
-- The outside of a replica, and the code of a handler: an action on the replica that may fail. What
-- was written before an error stays written, as in the source.
use b7s.Common.{Bool, List, Option, none, some, if◌then◌else◌, ◌≡◌, refl, ◌⊎◌, inl, inr}
use b7s.Common.Text.{Text}
use b7s.Models.{PeerId, ExecuteRequest, ExecuteResult, TraceInfo}
use b7s.Pbft.Message.{Payload}
use b7s.Pbft.State.{Replica, ReplicaState, Event}

-- What the replica calls and does not implement: JSON, SHA-256, the keys of libp2p, the network and
-- the executor. The network and the executor may answer by all that went before.
pub record Env : Type 0 where
  pub marshal : Payload → Option Text
  pub sha256 : Text → Text
  pub sign_bytes : Text → Option Text
  pub extract_public_key : PeerId → Option Text
  -- `none` is an error of the library, apart from the verdict.
  pub verify_bytes : Text → Text → Text → Option Bool
  pub delivers : List Event → PeerId → Text → Bool
  pub trace_info : List Event → TraceInfo
  pub execute_function : List Event → Text → ExecuteRequest → ExecuteResult

pub data Error : Type 0 where
  -- `ErrViewChange`, `ErrActiveView`, `ErrConflictingPreprepare` and `ErrInvalidSignature`.
  view_change_in_progress in_active_view conflicting_pre_prepare invalid_signature : Error
  -- Signatures and messages.
  no_public_key bad_signature_hex verification_failed signing_failed encoding_failed : Error
  send_failed broadcast_failed byzantine_replica : Error
  -- Handlers.
  too_small_cluster already_queued dropped_pre_prepare invalid_view unknown_request : Error
  -- View changes.
  invalid_view_number prepare_view_or_sequence unmatched_pre_prepare empty_digest : Error
  unmatched_digest too_few_prepares prepare_for_wrong_request : Error
  not_projected_primary no_view_changes too_few_view_changes : Error
  wrong_pre_prepare_view unexpected_sequence_list : Error

pub data Result (A : Type 0) : Type 0 where
  ok : A → Result A
  err : Error → Result A

abbrev pub Action : Type 0 → Type 0
Action A = Replica → Result A × Replica

abbrev pub Done : Type 0
Done = Unit

module _ {A : Type 0} where
  abbrev pub lift : Result A → Action A
  lift res r = (res, r)

  abbrev pub raise : Error → Action A
  raise e = lift (err e)

  abbrev pub pure : A → Action A
  pure a = lift (ok a)

  abbrev pub or_raise : Option A → Error → Action A
  or_raise (some a) _ = pure a
  or_raise none e = raise e

  abbrev pub gets : (Replica → A) → Action A
  gets f r = (ok (f r), r)

-- What comes after a step: nothing, if it failed.
unfoldable pub follow : {A B : Type 0} → (A → Action B) → Result A × Replica → Result B × Replica
follow next (ok a, after) = next a after
follow next (err e, after) = (err e, after)

infixl 5 ◌>>=◌ ◌>>◌
abbrev pub ◌>>=◌ : {A B : Type 0} → Action A → (A → Action B) → Action B
◌>>=◌ act next r = follow next (act r)

abbrev pub ◌>>◌ : {A B : Type 0} → Action A → Action B → Action B
act >> next = act >>= λ _. next

-- `return nil`.
abbrev pub done : Action Done
done = pure tt

abbrev pub raise_if : Bool → Error → Action Done
raise_if c e r = (if c then err e else ok tt, r)

abbrev pub modify : (Replica → Replica) → Action Done
modify g r = (ok tt, g r)

abbrev pub modify_state : (ReplicaState → ReplicaState) → Action Done
modify_state g r = (ok tt, record r { state = g r.state })

-- The error is logged, and the caller goes on.
abbrev pub logged : Action Done → Action Done
logged m r = (ok tt, (m r).1)

pub Result-cases :
    {A : Type 0} (m : Result A) → ((a : A) × (m ≡ ok a)) ⊎ ((e : Error) × (m ≡ err e))
Result-cases (ok a) = inl (a, refl)
Result-cases (err e) = inr (e, refl)
