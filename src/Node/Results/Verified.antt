-- ===== src/Node/Results/Verified.antt =====
-- The responses that `gatherExecutionResultsPBFT` accepts.
use b7s.Common.{
  List, [], ◌∷◌, Option, none, some, ◌≡◌, refl, arith, nat_eq, inl, inr, ◌==◌, Bool-cases,
  Option-cases,
}
use b7s.Common.Text.{Text, text_eq, text_beq_iff}
use b7s.Common.Map.{lookup}
use b7s.Common.Map.Count.{Distinct}
use b7s.Models.{PeerId, NodeResult}
use b7s.Node.Results.{key_eq, ResultMap, accept_result, accepted}
use b7s.Pbft.Action.{Env, ok, Result-cases}
use b7s.Pbft.Signature.{verify_result}

abbrev pub IsVerified : Env → PeerId → NodeResult → Type 0
IsVerified env p er =
    (pub_key : Text) × (env.extract_public_key p ≡ some pub_key)
    × (verify_result env er pub_key ≡ ok tt)

accept_result-IsVerified :
    (env : Env) (p : PeerId) (response : Option ResultMap) (er : NodeResult)
    → accept_result env p response ≡ some er
    → IsVerified env p er
unfolding accept_result
accept_result-IsVerified env p none er h = cc
accept_result-IsVerified env p (some res) er h = elim (Option-cases (lookup p res)) [
  | inl e ↦ absurd (ground (arith, h, e))
  | inr (found, e) ↦ elim (Option-cases (env.extract_public_key p)) [
    | inl f ↦ absurd (ground (arith, h, e, f))
    | inr (pub_key, f) ↦ elim (Result-cases (verify_result env found pub_key)) [
      | inl (tt, g) ↦ (pub_key, f, ground (arith, h, e, f, g))
      | inr (x, g) ↦ absurd (ground (arith, h, e, f, g))
    ]
  ]
]

pub lookup-accepted :
    (env : Env) (l : List (PeerId × Option ResultMap)) (p : PeerId)
    → lookup p l ≡ none
    → lookup p (accepted env l) ≡ none
unfolding accepted lookup
lookup-accepted env [] p h = refl
lookup-accepted env ((sender, response) ∷ l) p h =
    elim (Option-cases (accept_result env sender response)) [
      | inl e ↦ ground (arith, h, e, lookup-accepted env l p)
      | inr (er, e) ↦ ground (arith, h, e, lookup-accepted env l p)
    ]

pub accepted-Distinct :
    (env : Env) (l : List (PeerId × Option ResultMap)) → Distinct l → Distinct (accepted env l)
unfolding accepted
accepted-Distinct env [] d = tt
accepted-Distinct env ((sender, response) ∷ l) d =
    elim (Option-cases (accept_result env sender response)) [
      | inl e ↦ rw e (accepted-Distinct env l d.1)
      | inr (er, e) ↦ rw e (lookup-accepted env l sender d.0, accepted-Distinct env l d.1)
    ]

pub accepted-IsVerified :
    (env : Env) (l : List (PeerId × Option ResultMap)) (p : PeerId) (er : NodeResult)
    → lookup p (accepted env l) ≡ some er
    → IsVerified env p er
unfolding accepted lookup
accepted-IsVerified env [] p er h = cc
accepted-IsVerified env ((sender, response) ∷ l) p er h =
    elim (Option-cases (accept_result env sender response)) [
      | inl e ↦ accepted-IsVerified env l p er (rw e at h)
      | inr (first, e) ↦ elim (Bool-cases (sender == p)) [
        | inr s ↦ accepted-IsVerified env l p er (ground (arith, e, s, h))
        | inl s ↦
            accept_result-IsVerified env p response er
              (ground (arith, e, s, h, text_beq_iff sender p))
      ]
    ]
