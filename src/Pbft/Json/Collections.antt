-- ===== src/Pbft/Json/Collections.antt =====
-- Slices and maps come back from JSON as they went, if their values do.
use b7s.Common.{
  List, [], ◌∷◌, ◌++◌, Option, none, some, ◌≡◌, ◌≢◌, refl, ap, arith, All, Eq, ◌==◌, Bool-cases,
  inl, inr,
}
use b7s.Common.Text.{Text, text_eq}
use b7s.Common.Map.{Map, lookup, insert}
use b7s.Pbft.Json.{Json, ◌>>=◌, encode_list, decode_list, encode_map, decode_map}

module _ {A : Type 0} (P : A → Type 0) (encode : A → Json) (decode : Json → Option A)
    (back : (a : A) → P a → decode (encode a) ≡ some a) where
  pub decode-encode_list :
      (list : List A) → All P list → decode_list decode (encode_list encode list) ≡ some list
  unfolding decode_list encode_list ◌>>=◌
  decode-encode_list [] h = refl
  decode-encode_list (a ∷ rest) h = rw (back a h.0, decode-encode_list rest h.1) refl

  pub decode-encode_map :
      (m : Map Text A) → All (λ e. P e.1) m → decode_map decode (encode_map encode m) ≡ some m
  unfolding decode_map encode_map ◌>>=◌
  decode-encode_map [] h = refl
  decode-encode_map ((key, a) ∷ m) h = rw (back a h.0, decode-encode_map m h.1) refl

module _ {K V : Type 0} ⦃e : Eq K⦄ where
  pub insert-new :
      (k : K) (v : V) (m : Map K V) → lookup k m ≡ none → insert k v m ≡ m ++ (k, v) ∷ []
  unfolding insert lookup
  insert-new k v [] h = refl
  insert-new k v ((j, w) ∷ m) h = elim (Bool-cases (j == k)) [
    | inl y ↦ ground arith
    | inr n ↦ rw n (ap (λ r. (j, w) ∷ r) (insert-new k v m (ground arith)))
  ]

  -- A key that is not in a map is not the key of any of its entries.
  pub lookup-apart : (k : K) (m : Map K V) → lookup k m ≡ none → All (λ x. x.0 ≢ k) m
  unfolding lookup
  lookup-apart k [] h = tt
  lookup-apart k ((j, w) ∷ m) h = (ground (arith, e.beq_iff j k), lookup-apart k m (ground arith))
