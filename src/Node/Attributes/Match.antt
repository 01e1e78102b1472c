-- ===== src/Node/Attributes/Match.antt =====
-- When a worker has all that a request wants.
use b7s.Common.{
  Bool, true, false, List, [], ◌∷◌, Option, none, some, ◌≡◌, ◌≢◌, ◌⊎◌, ◌↔◌, In, All, arith,
  Bool-cases, Option-cases, inl, inr, if◌then◌else◌, ◌==◌, not, ◌&&◌, refl,
}
use b7s.Common.Text.{Text, text_eq, text_beq_iff}
use b7s.Common.Map.{Map, lookup, insert, has, lookup-insert}
use b7s.Models.{PeerId, Parameter, Attributes}
use b7s.Pbft.Messaging.{is_empty}
use b7s.Node.Attributes.{
  attestor_map, attribute_map, missing_each, found_one_of, check_values, have_attributes,
}

-- The value of the last attribute of a name.
unfoldable pub last_value : Text → List (Text × Text) → Option Text
last_value name [] = none
last_value name ((other, value) ∷ rest) =
    let later = last_value name rest in
    elim later [ some v ↦ some v | none ↦ if other == name then some value else none ]

abbrev or_else : Option Text → Option Text → Option Text
or_else (some v) other = some v
or_else none other = other

lookup-attribute_map :
    (name : Text) (m : Map Text Text) (l : List (Text × Text))
    → lookup name (attribute_map m l) ≡ or_else (last_value name l) (lookup name m)
unfolding attribute_map last_value
lookup-attribute_map name m [] = refl
lookup-attribute_map name m ((other, value) ∷ rest) = elim (Option-cases (last_value name rest)) [
  | inl e ↦ ground (
    arith,
    e,
    lookup-attribute_map name (insert other value m) rest,
    lookup-insert other name value m,
    text_beq_iff other name,
  )
  | inr (v, e) ↦ ground (arith, e, lookup-attribute_map name (insert other value m) rest)
]

has-attestor_map :
    (p : PeerId) (m : Map PeerId (Unit {0})) (l : List PeerId)
    → (has (lookup p (attestor_map m l)) ≡ true) ↔ (In p l ⊎ (has (lookup p m) ≡ true))
unfolding attestor_map
has-attestor_map p m [] = (λ e. inr e, λ c. elim c [ inl i ↦ absurd i | inr e ↦ e ])
has-attestor_map p m (signer ∷ rest) =
    let (to, of) = has-attestor_map p (insert signer tt m) rest in
    (
      λ e. elim (to e) [
        | inl i ↦ inl (inr i)
        | inr f ↦ ground (arith, f, lookup-insert signer p tt m, text_beq_iff signer p)
      ],
      λ c. of (elim c [
        | inl (inl i) ↦ inr (ground (arith, i, lookup-insert signer p tt m, text_beq_iff signer p))
        | inl (inr i) ↦ inl i
        | inr f ↦ inr (ground (arith, f, lookup-insert signer p tt m, text_beq_iff signer p))
      ]),
    )

abbrev signed : List PeerId → PeerId → Bool
signed signers p = has (lookup p (attestor_map [] signers))

signed-In : (signers : List PeerId) (p : PeerId) → (signed signers p ≡ true) ↔ In p signers
unfolding lookup
signed-In signers p =
    let (to, of) = has-attestor_map p [] signers in
    (λ e. elim (to e) [ inl i ↦ i | inr f ↦ absurd (ground (arith, f)) ], λ i. of (inl i))

missing_each-All :
    (signers ps : List PeerId)
    → (missing_each (attestor_map [] signers) ps ≡ false) ↔ All (λ p. In p signers) ps
unfolding missing_each
missing_each-All signers [] = (λ e. tt, λ a. refl)
missing_each-All signers (p ∷ ps) = elim (Bool-cases (signed signers p)) [
  | inl e ↦ rw e (
    λ f. ((signed-In signers p).0 e, (missing_each-All signers ps).0 f),
    λ a. (missing_each-All signers ps).1 a.1,
  )
  | inr e ↦ rw e (
    λ f. absurd (ground (arith, f)),
    λ a. absurd (ground (arith, e, (signed-In signers p).1 a.0)),
  )
]

abbrev pub AnyIn : List PeerId → List PeerId → Type 0
AnyIn signers [] = ⊥
AnyIn signers (p ∷ ps) = In p signers ⊎ AnyIn signers ps

found_one_of-AnyIn :
    (signers ps : List PeerId)
    → (found_one_of (attestor_map [] signers) ps ≡ true) ↔ AnyIn signers ps
unfolding found_one_of
found_one_of-AnyIn signers [] = (λ e. absurd (ground (arith, e)), λ a. absurd a)
found_one_of-AnyIn signers (p ∷ ps) = elim (Bool-cases (signed signers p)) [
  | inl e ↦ rw e (λ f. inl ((signed-In signers p).0 e), λ a. refl)
  | inr e ↦ rw e (
    λ f. inr ((found_one_of-AnyIn signers ps).0 f),
    λ a. elim a [
      | inl i ↦ absurd (ground (arith, e, (signed-In signers p).1 i))
      | inr b ↦ (found_one_of-AnyIn signers ps).1 b
    ],
  )
]

abbrev pub HasValue : List (Text × Text) → Parameter → Type 0
HasValue attributes want = last_value want.name attributes ≡ some want.value

check_values-All :
    (attributes : List (Text × Text)) (wants : List Parameter)
    → (check_values (attribute_map [] attributes) wants ≡ none) ↔ All (HasValue attributes) wants
unfolding check_values lookup
check_values-All attributes [] = (λ e. tt, λ a. refl)
check_values-All attributes (want ∷ wants) =
    let known = lookup-attribute_map want.name [] attributes in
    let (to, of) = check_values-All attributes wants in
    elim (Option-cases (last_value want.name attributes)) [
      | inl e ↦ (λ h. absurd (ground (arith, known, e, h)), λ a. absurd (ground (arith, e, a.0)))
      | inr (v, e) ↦ elim (Bool-cases (v == want.value)) [
        | inl q ↦ (
          λ h. (
            ground (arith, e, q, text_beq_iff v want.value),
            to (ground (arith, known, e, q, h)),
          ),
          λ a. ground (arith, known, e, q, of a.1),
        )
        | inr q ↦ (
          λ h. absurd (ground (arith, known, e, q, h)),
          λ a. absurd (ground (arith, e, q, a.0, text_beq_iff v want.value)),
        )
      ]
    ]

abbrev pub IsMatch : List PeerId → List (Text × Text) → Attributes → Type 0
IsMatch signers attributes want =
    ((want.attestation_required ≡ false) ⊎ (signers ≢ []))
    × All (λ p. In p signers) want.attestors.each
    × ((want.attestors.one_of ≡ []) ⊎ AnyIn signers want.attestors.one_of)
    × All (HasValue attributes) want.values

empty_iff : (ps : List PeerId) → (is_empty ps ≡ true) ↔ (ps ≡ [])
empty_iff [] = (λ e. refl, λ e. refl)
empty_iff (p ∷ ps) = (λ e. absurd (ground (arith, e)), λ e. absurd (ground (arith, e)))

attested_iff :
    (required : Bool) (signers : List PeerId)
    → ((required && is_empty signers) ≡ false) ↔ ((required ≡ false) ⊎ (signers ≢ []))
attested_iff required signers = (
  λ a. elim (Bool-cases required) [
    | inr e ↦ inl e
    | inl e ↦ inr (λ q. absurd (ground (arith, a, e, (empty_iff signers).1 q)))
  ],
  λ c. elim (Bool-cases (is_empty signers)) [
    | inr e ↦ ground (arith, e)
    | inl e ↦ elim c [ inl f ↦ ground (arith, f) | inr n ↦ absurd (n ((empty_iff signers).0 e)) ]
  ],
)

one_found_iff :
    (signers ps : List PeerId)
    → ((not (is_empty ps) && not (found_one_of (attestor_map [] signers) ps)) ≡ false)
      ↔ ((ps ≡ []) ⊎ AnyIn signers ps)
one_found_iff signers ps = (
  λ c. elim (Bool-cases (is_empty ps)) [
    | inl e ↦ inl ((empty_iff ps).0 e)
    | inr e ↦ inr ((found_one_of-AnyIn signers ps).0 (ground (arith, c, e)))
  ],
  λ c. elim c [
    | inl q ↦ ground (arith, (empty_iff ps).1 q)
    | inr a ↦ ground (arith, (found_one_of-AnyIn signers ps).1 a)
  ],
)

-- The checks one after another.
have_attributes_checks :
    (signers : List PeerId) (attributes : List (Text × Text)) (want : Attributes)
    → let attestors = attestor_map [] signers in
      let one_of = want.attestors.one_of in
      (have_attributes signers attributes want ≡ none) ↔ (
        ((want.attestation_required && is_empty signers) ≡ false)
        × (missing_each attestors want.attestors.each ≡ false)
        × ((not (is_empty one_of) && not (found_one_of attestors one_of)) ≡ false)
        × (check_values (attribute_map [] attributes) want.values ≡ none))
unfolding have_attributes
have_attributes_checks signers attributes want = (
  λ h. (ground (arith, h), ground (arith, h), ground (arith, h), ground (arith, h)),
  λ c. ground (arith, c.0, c.1, c.2, c.3),
)

-- A worker accepts a request for its attributes exactly when it has an attestor, if attestation is
-- required, each of the attestors that are asked for, one of those of which one is asked for, if
-- there are any, and each value that is wanted, by the last of its attributes with the name.
pub have_attributes_iff :
    (signers : List PeerId) (attributes : List (Text × Text)) (want : Attributes)
    → (have_attributes signers attributes want ≡ none) ↔ IsMatch signers attributes want
have_attributes_iff signers attributes want =
    let (to, of) = have_attributes_checks signers attributes want in
    let attested = attested_iff want.attestation_required signers in
    let each = missing_each-All signers want.attestors.each in
    let one = one_found_iff signers want.attestors.one_of in
    let values = check_values-All attributes want.values in
    (
      λ h. let c = to h in (attested.0 c.0, each.0 c.1, one.0 c.2, values.0 c.3),
      λ m. of (attested.1 m.0, each.1 m.1, one.1 m.2, values.1 m.3),
    )
