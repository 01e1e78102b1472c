-- ===== src/Store/Table.antt =====
-- The entries of a database that hold the records of a map, each under a key of its own.
pub mod Pair
use b7s.Common.{
  List, [], ◌∷◌, Option, none, some, ◌≡◌, ◌≢◌, refl, sym, Bool, true, false, if◌then◌else◌, arith,
  Bool-cases, eq_of_beq, beq_refl, ◌==◌, Eq, inl, inr, ◌∙◌,
}
use b7s.Common.Text.{Text, text_eq}
use b7s.Common.Map.{Map, lookup, insert, erase, lookup-insert, lookup-erase}
use b7s.Store.Database.{Outside, Codec, GetResult, found, not_found}

-- What a read of the database gives for a record of the map, or for none.
abbrev pub Holds : {V : Type 0} → Codec V → Option V → GetResult → Type 0
Holds codec none res = res ≡ not_found
Holds codec (some v) res = (val : Text) × (codec.marshal v ≡ some val) × (res ≡ found val)

module _ (o : Outside) {K V : Type 0} ⦃e : Eq K⦄ (codec : Codec V) (key_of : K → Option Text) where
  abbrev pub IsTable : Map K V → o.Database → Type 0
  IsTable m db =
      (k : K) (key : Text) → key_of k ≡ some key → Holds codec (lookup k m) (o.get key db)

abbrev pub IsOwned : {K V : Type 0} ⦃e : Eq K⦄ → (K → Option Text) → Map K V → Text → Type 0
IsOwned {K} {V} key_of m key = (k : K) × (v : V) × (key_of k ≡ some key) × (lookup k m ≡ some v)

Holds-write :
    {V : Type 0} (codec : Codec V) (c d : Bool) (old : Option V) (v : V) (val : Text)
    (res : GetResult)
    → c ≡ d
    → codec.marshal v ≡ some val
    → Holds codec old res
    → Holds codec (if c then some v else old) (if d then found val else res)
Holds-write codec true true old v val res h m x = (val, m, refl)
Holds-write codec false false old v val res h m x = x
Holds-write codec _ _ old v val res h m x = ground arith

Holds-delete :
    {V : Type 0} (codec : Codec V) (c d : Bool) (old : Option V) (res : GetResult)
    → c ≡ d
    → Holds codec old res
    → Holds codec (if c then none else old) (if d then not_found else res)
Holds-delete codec true true old res h x = refl
Holds-delete codec false false old res h x = x
Holds-delete codec _ _ old res h x = ground arith

module _ (o : Outside) {K V : Type 0} ⦃e : Eq K⦄ (codec : Codec V) (key_of : K → Option Text)
    (injective : (a b : K) (key : Text) → key_of a ≡ some key → key_of b ≡ some key → a ≡ b) where
  same_test : (a b : K) (j k : Text) → key_of a ≡ some j → key_of b ≡ some k → (a == b) ≡ (j == k)
  same_test a b j k p q = ground (arith, e.beq_iff a b, text_eq.beq_iff j k, injective a b j)

  module _ (k : K) (key : Text) (at : key_of k ≡ some key) (m : Map K V)
      (db after : o.Database) where
    pub insert-IsTable :
        (v : V) (val : Text)
        → codec.marshal v ≡ some val
        → ((other : Text)
            → o.get other after ≡ (if key == other then found val else o.get other db))
        → IsTable o codec key_of m db
        → IsTable o codec key_of (insert k v m) after
    insert-IsTable v val c g t j other q =
        rw (lookup-insert, g)
          (Holds-write codec _ _ _ v val _ (same_test k j key other at q) c (t j other q))

    pub erase-IsTable :
        ((other : Text) → o.get other after ≡ (if key == other then not_found else o.get other db))
        → IsTable o codec key_of m db
        → IsTable o codec key_of (erase k m) after
    erase-IsTable g t j other q =
        rw (lookup-erase, g)
          (Holds-delete codec _ _ _ _ (same_test k j key other at q) (t j other q))

  -- A write under another key.
  pub other-IsTable :
      (key : Text) (res : GetResult) (m : Map K V) (db after : o.Database)
      → ((k : K) → key_of k ≢ some key)
      → ((other : Text) → o.get other after ≡ (if key == other then res else o.get other db))
      → IsTable o codec key_of m db
      → IsTable o codec key_of m after
  other-IsTable key res m db after free g t j other q = elim (Bool-cases (key == other)) [
    | inl y ↦ absurd (free j (cc (eq_of_beq key other y)))
    | inr n ↦ rw (g, n) (t j other q)
  ]

  pub insert-IsOwned :
      (k : K) (v : V) (m : Map K V) (other : Text)
      → IsOwned key_of m other
      → IsOwned key_of (insert k v m) other
  insert-IsOwned k v m other (j, w, p, q) = elim (Bool-cases (k == j)) [
    | inl y ↦ (j, v, p, ground (arith, lookup-insert k j v m))
    | inr n ↦ (j, w, p, ground (arith, lookup-insert k j v m))
  ]

  pub insert-IsOwned_self :
      (k : K) (v : V) (m : Map K V) (key : Text)
      → key_of k ≡ some key
      → IsOwned key_of (insert k v m) key
  insert-IsOwned_self k v m key p = (k, v, p, ground (lookup-insert k k v m, beq_refl k, arith))

  pub erase-IsOwned :
      (k : K) (m : Map K V) (key other : Text)
      → key_of k ≡ some key
      → key ≢ other
      → IsOwned key_of m other
      → IsOwned key_of (erase k m) other
  erase-IsOwned k m key other at n (j, w, p, q) =
      (j, w, p, ground (arith, lookup-erase k j m, e.beq_iff k j))
