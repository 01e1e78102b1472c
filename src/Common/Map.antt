-- ===== src/Common/Map.antt =====
-- Go maps, as association lists. A range over a map follows the list; Go's order is unspecified,
-- and the theorems are about lists in any order.
pub mod Count
pub mod Values
use Prim.Native.Nat.{ℕ, suc, ◌+◌, ◌≤◌}
use mathlib.Core.Path.{◌≡◌, refl}
use mathlib.Core.Logic.{◌≢◌}
use mathlib.Core.Bool.{Bool, true, false, not}
use mathlib.Core.Option.{Option, none, some}
use mathlib.Core.List.{List, [], ◌∷◌, ◌++◌}
use native.Mathlib.Omega.{arith}
use b7s.Common.Tests.{Eq, ◌==◌, if◌then◌else◌, beq_refl, eq_of_beq, Bool-cases}
use b7s.Common.Lists.{All, length, select}

abbrev pub Map {ℓ κ} : Type ℓ → Type κ → Type (ℓ ⊔ κ)
Map K V = List (K × V)

abbrev pub has {ℓ} : {V : Type ℓ} → Option V → Bool
has none = false
has (some _) = true

module _ {ℓ κ} {K : Type ℓ} {V : Type κ} ⦃e : Eq K⦄ where
  -- `m[k]` in its two-value form.
  unfoldable pub lookup : K → Map K V → Option V
  lookup k [] = none
  lookup k ((j, v) ∷ m) = if j == k then some v else lookup k m

  -- `m[k] = v`.
  unfoldable pub insert : K → V → Map K V → Map K V
  insert k v [] = (k, v) ∷ []
  insert k v ((j, w) ∷ m) = if j == k then (j, v) ∷ m else (j, w) ∷ insert k v m

  -- `delete(m, k)`.
  unfoldable pub erase : K → Map K V → Map K V
  erase k [] = []
  erase k ((j, w) ∷ m) = let rest = erase k m in if j == k then rest else (j, w) ∷ rest

  pub lookup-insert :
      (key k : K) (val : V) (m : Map K V)
      → lookup k (insert key val m) ≡ (if key == k then some val else lookup k m)
  unfolding lookup insert
  lookup-insert key k val [] = refl
  lookup-insert key k val ((j, w) ∷ m) =
      ground (arith, lookup-insert key k val m, e.beq_iff j key, e.beq_iff j k, e.beq_iff key k)

  pub lookup-erase :
      (k j : K) (m : Map K V) → lookup j (erase k m) ≡ (if k == j then none else lookup j m)
  unfolding lookup erase
  lookup-erase k j [] = ground arith
  lookup-erase k j ((i, w) ∷ m) =
      ground (arith, e.beq_iff k j, e.beq_iff i k, e.beq_iff i j, lookup-erase k j m)
