-- ===== src/Pbft/NewView/Generate.antt =====
-- The pre-prepares of a new view: what the primary generates and signs, and what a backup demands.
use b7s.Common.{
  ℕ, zero, suc, ◌+◌, ◌≡◌, refl, List, [], ◌∷◌, Option, none, some, arith, nat_eq, length, inl, inr,
  ◌∙◌, ap,
}
use b7s.Common.Map.{Map}
use b7s.Models.{PeerId}
use b7s.Pbft.Message.{PrePrepare, PrepareInfo, ViewChange, pre_prepare_signable}
use b7s.Pbft.Action.{Env, ok, Result-cases}
use b7s.Pbft.Signature.{sign}
use b7s.Pbft.NewView.{
  get_prepare, new_view_pre_prepare, pre_prepares_from, generate_pre_prepares,
  get_highest_sequence_number, sign_all, valid_sequence,
}

new_view_pre_prepare_numbers :
    (view s : ℕ) (p : Option PrepareInfo)
    → ((new_view_pre_prepare view s p).view ≡ view)
      × ((new_view_pre_prepare view s p).sequence_number ≡ s)
new_view_pre_prepare_numbers view s none = (refl, refl)
new_view_pre_prepare_numbers view s (some p) = (refl, refl)

pre_prepares_from-valid_sequence :
    (view : ℕ) (vcs : Map PeerId ViewChange) (rounds i : ℕ)
    → valid_sequence view i (pre_prepares_from view vcs rounds (i + 1)) ≡ ok tt
unfolding pre_prepares_from valid_sequence
pre_prepares_from-valid_sequence view vcs zero i = refl
pre_prepares_from-valid_sequence view vcs (suc rounds) i = ground (
  arith,
  new_view_pre_prepare_numbers view (i + 1) (get_prepare vcs (i + 1)),
  pre_prepares_from-valid_sequence view vcs rounds (i + 1),
)

-- Signing keeps the views and the sequence numbers.
sign_numbers :
    (env : Env) (pp signed : PrePrepare)
    → sign env pp ≡ ok signed
    → (signed.view ≡ pp.view)
      × (signed.sequence_number ≡ pp.sequence_number)
      × (signed.digest ≡ pp.digest)
unfolding sign
sign_numbers env pp signed h = ground arith

sign_all-cons :
    (env : Env) (pp : PrePrepare) (pps out : List PrePrepare)
    → sign_all env (pp ∷ pps) ≡ ok out
    → (signed : PrePrepare) × (rest : List PrePrepare) × (sign env pp ≡ ok signed)
      × (sign_all env pps ≡ ok rest)
      × (out ≡ signed ∷ rest)
unfolding sign_all
sign_all-cons env pp pps out e = elim (Result-cases (sign env pp)) [
  | inr (f, b) ↦ ground arith
  | inl (s, a) ↦ elim (Result-cases (sign_all env pps)) [
    | inr (f, b) ↦ ground arith
    | inl (rest, b) ↦ (s, rest, a, b, ground arith)
  ]
]

sign_all-valid_sequence :
    (env : Env) (view i : ℕ) (pps signed : List PrePrepare)
    → valid_sequence view i pps ≡ ok tt
    → sign_all env pps ≡ ok signed
    → (valid_sequence view i signed ≡ ok tt) × (length signed ≡ length pps)
unfolding sign_all valid_sequence
sign_all-valid_sequence env view i [] signed h e = ground arith
sign_all-valid_sequence env view i (pp ∷ pps) signed h e =
    let (s, rest, a, b, c) = sign_all-cons env pp pps signed e in
    ground (arith, sign_numbers env pp s a, sign_all-valid_sequence env view (i + 1) pps rest)

length-pre_prepares_from :
    (view : ℕ) (vcs : Map PeerId ViewChange) (rounds i : ℕ)
    → length (pre_prepares_from view vcs rounds i) ≡ rounds
unfolding pre_prepares_from
length-pre_prepares_from view vcs zero i = refl
length-pre_prepares_from view vcs (suc rounds) i =
    ap suc (length-pre_prepares_from view vcs rounds (i + 1))

-- The pre-prepares that the primary generates and signs for a new view are as many as the highest
-- sequence number in the view changes, and a backup finds their views and numbers in order.
pub generate_pre_prepares-valid_sequence :
    (env : Env) (view : ℕ) (vcs : Map PeerId ViewChange) (signed : List PrePrepare)
    → sign_all env (generate_pre_prepares view vcs) ≡ ok signed
    → (valid_sequence view 0 signed ≡ ok tt) × (length signed ≡ get_highest_sequence_number vcs)
unfolding generate_pre_prepares
generate_pre_prepares-valid_sequence env view vcs signed e =
    let max = get_highest_sequence_number vcs in
    let checked =
      sign_all-valid_sequence env view 0 (pre_prepares_from view vcs max 1) signed
        (pre_prepares_from-valid_sequence view vcs max 0) e in
    (checked.0, checked.1 ∙ length-pre_prepares_from view vcs max 1)
