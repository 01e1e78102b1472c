-- ===== src/Common/Map/Count.antt =====
-- Counting the keys of maps among a list of names.
use Prim.Native.Nat.{suc}
use Prim.Native.Nat.{◌+◌, ◌≤◌}
use mathlib.Core.Path.{◌≡◌}
use mathlib.Core.Logic.{inl, inr}
use mathlib.Core.Bool.{Bool, true, false, ◌&&◌}
use mathlib.Core.Option.{none}
use mathlib.Core.List.{List, [], ◌∷◌}
use native.Mathlib.Omega.{arith}
use b7s.Common.Tests.{Eq}
use b7s.Common.Lists.{In, length, select}
use b7s.Common.Map.{Map, lookup, has}

-- No key stands twice.
abbrev pub Distinct : {K : Type 0} {V : Type 0} ⦃e : Eq K⦄ → Map K V → Type 0
Distinct [] = Unit
Distinct ((k, v) ∷ m) = (lookup k m ≡ none) × Distinct m

abbrev pub KeysIn : {K : Type 0} {V : Type 0} → List K → Map K V → Type 0
KeysIn names [] = Unit
KeysIn names ((k, v) ∷ m) = In k names × KeysIn names m

module _ {A : Type 0} where
  pub length-select_mono :
      (p q : A → Bool) (xs : List A)
      → ((a : A) → p a ≡ true → q a ≡ true)
      → length (select p xs) ≤ length (select q xs)
  unfolding select
  length-select_mono p q [] h = omega arith
  length-select_mono p q (x ∷ xs) h = ground (arith, h x, length-select_mono p q xs h)

  -- What passes two tests is at least what the two counts have too many.
  pub length-select_overlap :
      (p q : A → Bool) (xs : List A)
      → length (select p xs) + length (select q xs)
        ≤ length xs + length (select (λ x. p x && q x) xs)
  unfolding select
  length-select_overlap p q [] = omega arith
  length-select_overlap p q (x ∷ xs) = ground (arith, length-select_overlap p q xs)

module _ {K : Type 0} ⦃e : Eq K⦄ where
  -- One more name passes, once the test admits it.
  length-select_more :
      (p q : K → Bool) (k : K) (names : List K)
      → In k names
      → p k ≡ false
      → q k ≡ true
      → ((a : K) → p a ≡ true → q a ≡ true)
      → suc (length (select p names)) ≤ length (select q names)
  unfolding select
  length-select_more p q k [] m hp hq h = absurd m
  length-select_more p q k (x ∷ xs) (inl here) hp hq h = ground (arith, length-select_mono p q xs h)
  length-select_more p q k (x ∷ xs) (inr later) hp hq h =
      ground (arith, h x, length-select_more p q k xs later hp hq h)

  -- A map with distinct keys, all of them names, has no more entries than names with an entry.
  pub length-le-keys :
      {V : Type 0} (m : Map K V) (names : List K)
      → Distinct m
      → KeysIn names m
      → length m ≤ length (select (λ a. has (lookup a m)) names)
  unfolding lookup
  length-le-keys [] names d i = omega arith
  length-le-keys ((k, v) ∷ m) names d i = omega (
    arith,
    length-le-keys m names d.1 i.1,
    length-select_more (λ a. has (lookup a m)) (λ a. has (lookup a ((k, v) ∷ m))) k names i.0
        (ground (arith, d.0)) (ground (arith, e.beq_iff k k)) (λ a h. ground (arith, h)),
  )
