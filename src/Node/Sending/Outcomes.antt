-- ===== src/Node/Sending/Outcomes.antt =====
-- When sending to many peers is a success.
use b7s.Common.{
  Bool, true, List, [], ◌∷◌, some, length, select, ◌≡◌, ◌↔◌, refl, arith, All, Bool-cases, inl, inr,
}
use b7s.Common.Text.{Text}
use b7s.Common.Outcome.{ok}
use b7s.Models.{PeerId}
use b7s.Node.Sending.{send_to_many, unreached}

abbrev pub Reaches : (PeerId → Text → Bool) → Text → List PeerId → Type 0
Reaches delivers payload peers = All (λ p. delivers p payload ≡ true) peers

module _ (delivers : PeerId → Text → Bool) (payload : Text) where
  unreached_none :
      (peers : List PeerId)
      → (length (unreached delivers payload peers) ≡ 0) ↔ Reaches delivers payload peers
  unfolding select
  unreached_none [] = (λ h. tt, λ h. refl)
  unreached_none (p ∷ peers) = elim (Bool-cases (delivers p payload)) [
    | inl y ↦ rw y (λ h. (refl, (unreached_none peers).0 h), λ h. (unreached_none peers).1 h.1)
    | inr n ↦ rw n (λ h. ground arith, λ h. ground (arith, h.0))
  ]

  -- Sending to all is a success just when each peer is reached.
  pub send_to_many_all :
      (peers : List PeerId)
      → (send_to_many delivers peers (some payload) true ≡ ok tt) ↔ Reaches delivers payload peers
  unfolding send_to_many
  send_to_many_all peers = ground (arith, (unreached_none peers))
