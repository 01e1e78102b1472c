-- ===== src/Pbft/ViewChange/Validity.antt =====
-- What `validViewChange` accepts, as a predicate on the message.
use b7s.Common.{ℕ, ◌≤◌, ◌<◌, ◌≡◌, ◌≢◌, ◌↔◌, refl, List, [], ◌∷◌, arith, nat_eq, length, true, All}
use b7s.Common.Text.{Text, text_eq, text_beq_iff}
use b7s.Common.Map.{Map}
use b7s.Models.{PeerId}
use b7s.Pbft.Core.{primary, prepare_quorum}
use b7s.Pbft.Message.{Prepare, PrepareInfo, ViewChange, pre_prepare_signable, prepare_signable}
use b7s.Pbft.State.{Replica}
use b7s.Pbft.Action.{Env, Result, Done, ok, err, Result-cases}
use b7s.Pbft.Signature.{verify_signature}
use b7s.Pbft.Messaging.{is_empty}
use b7s.Pbft.Conditions.{peer_at}
use b7s.Pbft.ViewChange.{
  ◌then_check◌, valid_prepares, valid_prepare_info, valid_prepare_infos, valid_view_change,
}

-- A prepare for the same view, sequence number and digest, signed by the peer that it came from.
abbrev pub Backs : Env → PrepareInfo → PeerId × Prepare → Type 0
Backs env info (replica, pp) =
    (pp.view ≡ info.view)
    × (pp.sequence_number ≡ info.sequence_number)
    × (pp.digest ≡ info.digest)
    × (verify_signature env pp replica ≡ ok tt)

pub record IsCertificate (env : Env) (r : Replica) (view : ℕ) (info : PrepareInfo) : Type 0 where
  pub earlier : info.view < view
  pub numbered : info.sequence_number ≢ 0
  pub same_view : info.view ≡ info.pre_prepare.view
  pub same_sequence : info.sequence_number ≡ info.pre_prepare.sequence_number
  pub signed_by_primary :
      verify_signature env info.pre_prepare (peer_at r.peers (primary r.core info.view)) ≡ ok tt
  pub not_null : info.digest ≢ []
  pub same_digest : info.digest ≡ info.pre_prepare.digest
  pub quorum : prepare_quorum r.core ≤ length info.prepares
  pub backed : All (Backs env info) info.prepares

abbrev pub IsValidViewChange : Env → Replica → ViewChange → Type 0
IsValidViewChange env r vc = (vc.view ≢ 0) × All (IsCertificate env r vc.view) vc.prepares

then_check_iff : (a b : Result Done) → ((a then_check b) ≡ ok tt) ↔ ((a ≡ ok tt) × (b ≡ ok tt))
then_check_iff (ok x) b = (λ h. (refl, h), λ h. h.1)
then_check_iff (err e) b = (λ h. cc, λ h. cc)

valid_prepares_iff :
    (env : Env) (info : PrepareInfo) (m : Map PeerId Prepare)
    → (valid_prepares env info m ≡ ok tt) ↔ All (Backs env info) m
unfolding valid_prepares
valid_prepares_iff env info [] = (λ h. tt, λ h. refl)
valid_prepares_iff env info ((replica, pp) ∷ rest) = ground (
  arith,
  text_beq_iff pp.digest info.digest,
  Result-cases (verify_signature env pp replica),
  valid_prepares_iff env info rest,
)

is_empty_iff : (t : Text) → (is_empty t ≡ true) ↔ (t ≡ [])
is_empty_iff [] = (λ h. refl, λ h. refl)
is_empty_iff (x ∷ t) = (λ h. cc, λ h. cc)

valid_prepare_info_iff :
    (env : Env) (r : Replica) (vc : ViewChange) (info : PrepareInfo)
    → (valid_prepare_info env r vc info ≡ ok tt) ↔ IsCertificate env r vc.view info
unfolding valid_prepare_info
valid_prepare_info_iff env r vc info = (
  λ h. ground (
    arith,
    is_empty_iff info.digest,
    text_beq_iff info.digest info.pre_prepare.digest,
    valid_prepares_iff env info info.prepares,
  ),
  λ c. ground (
    arith,
    is_empty_iff info.digest,
    text_beq_iff info.digest info.pre_prepare.digest,
    valid_prepares_iff env info info.prepares,
  ),
)

valid_prepare_infos_iff :
    (env : Env) (r : Replica) (vc : ViewChange) (infos : List PrepareInfo)
    → (valid_prepare_infos env r vc infos ≡ ok tt) ↔ All (IsCertificate env r vc.view) infos
unfolding valid_prepare_infos
valid_prepare_infos_iff env r vc [] = (λ h. tt, λ h. refl)
valid_prepare_infos_iff env r vc (info ∷ rest) = ground (
  arith,
  then_check_iff (valid_prepare_info env r vc info) (valid_prepare_infos env r vc rest),
  valid_prepare_info_iff env r vc info,
  valid_prepare_infos_iff env r vc rest,
)

-- A view change message is accepted exactly when its view is not 0 and every certificate in it is
-- for an earlier view and a sequence number other than 0, has a pre-prepare for the same view,
-- sequence number and digest that the primary of that view signed, has a digest, and has at least a
-- prepare quorum of prepares, each signed and for the same view, sequence number and digest.
pub valid_view_change_iff :
    (env : Env) (r : Replica) (vc : ViewChange)
    → (valid_view_change env r vc ≡ ok tt) ↔ IsValidViewChange env r vc
unfolding valid_view_change
valid_view_change_iff env r vc = ground (arith, valid_prepare_infos_iff env r vc vc.prepares)
