-- ===== src/Common/Map/Values.antt =====
-- A property of every value that a map can be asked for, under the writes to the map.
use mathlib.Core.Path.{◌≡◌, refl}
use mathlib.Core.Logic.{inl, inr}
use mathlib.Core.Option.{some}
use mathlib.Core.List.{List, [], ◌∷◌}
use native.Mathlib.Omega.{arith}
use b7s.Common.Tests.{Eq, ◌==◌, Bool-cases, eq_of_beq}
use b7s.Common.Lists.{All, In}
use b7s.Common.Map.{Map, lookup, insert, lookup-insert}
use b7s.Common.Map.Count.{Distinct, KeysIn}

abbrev pub Values : {K V : Type 0} ⦃e : Eq K⦄ → (K → V → Type 0) → Map K V → Type 0
Values {K} {V} P m = (k : K) (v : V) → lookup k m ≡ some v → P k v

-- Receipts by the peers that they came from.
abbrev pub IsReceipts : {K V : Type 0} ⦃e : Eq K⦄ → List K → (V → Type 0) → Map K V → Type 0
IsReceipts names P m = Distinct m × KeysIn names m × All (λ e. P e.1) m

module _ {K V : Type 0} ⦃e : Eq K⦄ where
  pub empty-Values : (P : K → V → Type 0) → Values P []
  unfolding lookup
  empty-Values P k v h = cc

  pub insert-Values :
      (P : K → V → Type 0) (key : K) (val : V) (m : Map K V)
      → P key val
      → Values P m
      → Values P (insert key val m)
  insert-Values P key val m p h k v q = elim (Bool-cases (key == k)) [
    | inr f ↦ h k v (ground (arith, lookup-insert key k val m))
    | inl f ↦ moved (eq_of_beq key k f) (ground (arith, lookup-insert key k val m))
  ]
    where
      moved : key ≡ k → val ≡ v → P k v
      moved a b = rw (← a, ← b) p

  pub insert-Distinct : (key : K) (val : V) (m : Map K V) → Distinct m → Distinct (insert key val m)
  unfolding insert lookup
  insert-Distinct key val [] d = (refl, tt)
  insert-Distinct key val ((j, w) ∷ m) d = elim (Bool-cases (j == key)) [
    | inl f ↦ rw f d
    | inr f ↦ rw f (
      ground (arith, d.0, lookup-insert key j val m, e.beq_iff key j, e.beq_iff j key),
      insert-Distinct key val m d.1,
    )
  ]

  insert-KeysIn :
      (names : List K) (key : K) (val : V) (m : Map K V)
      → In key names
      → KeysIn names m
      → KeysIn names (insert key val m)
  unfolding insert
  insert-KeysIn names key val [] i h = (i, tt)
  insert-KeysIn names key val ((j, w) ∷ m) i h = elim (Bool-cases (j == key)) [
    | inl f ↦ rw f h
    | inr f ↦ rw f (h.0, insert-KeysIn names key val m i h.1)
  ]

  pub insert-All :
      (P : V → Type 0) (key : K) (val : V) (m : Map K V)
      → P val
      → All (λ e. P e.1) m
      → All (λ e. P e.1) (insert key val m)
  unfolding insert
  insert-All P key val [] p h = (p, tt)
  insert-All P key val ((j, w) ∷ m) p h = elim (Bool-cases (j == key)) [
    | inl f ↦ rw f (p, h.1)
    | inr f ↦ rw f (h.0, insert-All P key val m p h.1)
  ]

  pub insert-IsReceipts :
      (names : List K) (P : V → Type 0) (key : K) (val : V) (m : Map K V)
      → In key names
      → P val
      → IsReceipts names P m
      → IsReceipts names P (insert key val m)
  insert-IsReceipts names P key val m i p r = (
    insert-Distinct key val m r.0,
    insert-KeysIn names key val m i r.1,
    insert-All P key val m p r.2,
  )

  pub lookup-In : (k : K) (v : V) (m : Map K V) → lookup k m ≡ some v → In (k, v) m
  unfolding lookup
  lookup-In k v [] h = cc
  lookup-In k v ((j, w) ∷ m) h = elim (Bool-cases (j == k)) [
    | inl f ↦ inl (ground (arith, e.beq_iff j k))
    | inr f ↦ inr (lookup-In k v m (rw f at h))
  ]

  pub In-lookup : (k : K) (v : V) (m : Map K V) → Distinct m → In (k, v) m → lookup k m ≡ some v
  unfolding lookup
  In-lookup k v [] d i = absurd i
  In-lookup k v ((j, w) ∷ m) d (inl f) = ground (arith, f, e.beq_iff j k)
  In-lookup k v ((j, w) ∷ m) d (inr i) = ground (arith, d.0, In-lookup k v m d.1 i, e.beq_iff j k)
