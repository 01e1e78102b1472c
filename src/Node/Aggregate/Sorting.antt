-- ===== src/Node/Aggregate/Sorting.antt =====
-- The order of the aggregates.
use b7s.Common.{◌≡◌, ◌⊎◌, ◌↔◌, false, List, [], ◌∷◌, arith, inl, inr, In, Bool-cases, nat_eq}
use b7s.Common.Text.{text_eq}
use b7s.Node.Results.{output_eq}
use b7s.Node.Aggregate.{Aggregate, more_frequent, place, sort_by_frequency}

place-In : (a b : Aggregate) (l : List Aggregate) → In b (place a l) → (b ≡ a) ⊎ In b l
unfolding place
place-In a b [] (inl e) = inl e
place-In a b [] (inr i) = absurd i
place-In a b (x ∷ l) i = elim (Bool-cases (more_frequent x.frequency a.frequency)) [
  | inr e ↦ rw e at i
  | inl e ↦ elim (rw e at i) [
    | inl q ↦ inr (inl q)
    | inr j ↦ elim (place-In a b l j) [ inl q ↦ inl q | inr k ↦ inr (inr k) ]
  ]
]

In-place : (a b : Aggregate) (l : List Aggregate) → (b ≡ a) ⊎ In b l → In b (place a l)
unfolding place
In-place a b [] i = i
In-place a b (x ∷ l) i = elim (Bool-cases (more_frequent x.frequency a.frequency)) [
  | inr e ↦ rw e i
  | inl e ↦ rw e (elim i [
    | inl q ↦ inr (In-place a b l (inl q))
    | inr (inl q) ↦ inl q
    | inr (inr j) ↦ inr (In-place a b l (inr j))
  ])
]

pub sort-In : (b : Aggregate) (l : List Aggregate) → In b (sort_by_frequency l) ↔ In b l
unfolding sort_by_frequency
sort-In b [] = (λ i. i, λ i. i)
sort-In b (a ∷ l) = (
  λ i. elim (place-In a b (sort_by_frequency l) i) [
    | inl q ↦ inl q
    | inr j ↦ inr ((sort-In b l).0 j)
  ],
  λ i.
      In-place a b (sort_by_frequency l)
        (elim i [ inl q ↦ inl q | inr j ↦ inr ((sort-In b l).1 j) ]),
)

-- The next one is not more frequent.
abbrev pub Leads : Aggregate → List Aggregate → Type 0
Leads a [] = Unit
Leads a (b ∷ l) = more_frequent b.frequency a.frequency ≡ false

abbrev pub IsSorted : List Aggregate → Type 0
IsSorted [] = Unit
IsSorted (a ∷ l) = Leads a l × IsSorted l

place-Leads :
    (a b : Aggregate) (l : List Aggregate)
    → Leads b l
    → more_frequent a.frequency b.frequency ≡ false
    → Leads b (place a l)
unfolding place
place-Leads a b [] h k = k
place-Leads a b (x ∷ l) h k = elim (Bool-cases (more_frequent x.frequency a.frequency)) [
  | inl e ↦ rw e h
  | inr e ↦ rw e k
]

place-IsSorted : (a : Aggregate) (l : List Aggregate) → IsSorted l → IsSorted (place a l)
unfolding place
place-IsSorted a [] h = (tt, tt)
place-IsSorted a (x ∷ l) h = elim (Bool-cases (more_frequent x.frequency a.frequency)) [
  | inl e ↦ rw e (place-Leads a x l h.0 (ground (arith, e)), place-IsSorted a l h.1)
  | inr e ↦ rw e (e, h)
]

pub sort-IsSorted : (l : List Aggregate) → IsSorted (sort_by_frequency l)
unfolding sort_by_frequency
sort-IsSorted [] = tt
sort-IsSorted (a ∷ l) = place-IsSorted a (sort_by_frequency l) (sort-IsSorted l)
