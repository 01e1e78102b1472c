-- ===== src/Store/Table/Pair.antt =====
-- A database that holds the records of two maps, under keys that never meet, and nothing else.
use b7s.Common.{
  some, Option, ◌≡◌, ◌≢◌, ◌⊎◌, inl, inr, if◌then◌else◌, arith, Bool-cases, eq_of_beq, ◌==◌, Eq,
}
use b7s.Common.Text.{Text, text_eq}
use b7s.Common.Map.{Map, insert, erase}
use b7s.Store.Database.{Outside, Codec, found, not_found}
use b7s.Store.Table.{
  IsTable, IsOwned, insert-IsTable, erase-IsTable, other-IsTable, insert-IsOwned,
  insert-IsOwned_self, erase-IsOwned,
}

module _ (o : Outside) where
  module _ {K V J W : Type 0} ⦃e : Eq K⦄ ⦃f : Eq J⦄ (codec : Codec V) (key_of : K → Option Text)
      (other_codec : Codec W) (other_key_of : J → Option Text) where
    abbrev pub IsPair : Map K V → Map J W → o.Database → Type 0
    IsPair m n db =
        IsTable o codec key_of m db
        × IsTable o other_codec other_key_of n db
        × ((key val : Text)
            → o.get key db ≡ found val
            → IsOwned key_of m key ⊎ IsOwned other_key_of n key)

    pub swap-IsPair :
        (m : Map K V) (n : Map J W) (db : o.Database)
        → IsPair m n db
        → (IsTable o other_codec other_key_of n db
            × IsTable o codec key_of m db
            × ((key val : Text)
                → o.get key db ≡ found val
                → IsOwned other_key_of n key ⊎ IsOwned key_of m key))
    swap-IsPair m n db (s, t, only) =
        (t, s, λ key val r. elim (only key val r) [ inl i ↦ inr i | inr i ↦ inl i ])

  module _ {K V J W : Type 0} ⦃e : Eq K⦄ ⦃f : Eq J⦄ (codec : Codec V) (key_of : K → Option Text)
      (other_codec : Codec W) (other_key_of : J → Option Text)
      (injective : (a b : K) (key : Text) → key_of a ≡ some key → key_of b ≡ some key → a ≡ b)
      (other_injective : (a b : J) (key : Text)
        → other_key_of a ≡ some key
        → other_key_of b ≡ some key
        → a ≡ b)
      (apart : (a : K) (b : J) (key : Text) → key_of a ≡ some key → other_key_of b ≢ some key)
      (k : K) (key : Text) (at : key_of k ≡ some key) (m : Map K V) (n : Map J W)
      (db after : o.Database) where
    pub insert-IsPair :
        (v : V) (val : Text)
        → codec.marshal v ≡ some val
        → ((other : Text)
            → o.get other after ≡ (if key == other then found val else o.get other db))
        → IsPair codec key_of other_codec other_key_of m n db
        → IsPair codec key_of other_codec other_key_of (insert k v m) n after
    insert-IsPair v val c g (s, t, only) = (
      insert-IsTable o codec key_of injective k key at m db after v val c g s,
      other-IsTable o other_codec other_key_of other_injective key (found val) n db after
          (λ j. apart k j key at) g t,
      λ other got r. elim (Bool-cases (key == other)) [
        | inl y ↦
            inl (
              insert-IsOwned_self o codec key_of injective k v m other (cc (eq_of_beq key other y)))
        | inr u ↦ elim (only other got (ground (arith, g other))) [
          | inl i ↦ inl (insert-IsOwned o codec key_of injective k v m other i)
          | inr i ↦ inr i
        ]
      ],
    )

    pub erase-IsPair :
        ((other : Text) → o.get other after ≡ (if key == other then not_found else o.get other db))
        → IsPair codec key_of other_codec other_key_of m n db
        → IsPair codec key_of other_codec other_key_of (erase k m) n after
    erase-IsPair g (s, t, only) = (
      erase-IsTable o codec key_of injective k key at m db after g s,
      other-IsTable o other_codec other_key_of other_injective key not_found n db after
          (λ j. apart k j key at) g t,
      λ other got r. elim (Bool-cases (key == other)) [
        | inl y ↦ ground (arith, g other)
        | inr u ↦ elim (only other got (ground (arith, g other))) [
          | inl i ↦ inl (
              erase-IsOwned o codec key_of injective k m key other at
                (ground (arith, text_eq.beq_iff key other)) i)
          | inr i ↦ inr i
        ]
      ],
    )
