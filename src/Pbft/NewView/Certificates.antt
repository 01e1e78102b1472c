-- ===== src/Pbft/NewView/Certificates.antt =====
-- Which prepare certificate `getPrepare` chooses, and what `getHighestSequenceNumber` finds.
use b7s.Common.{
  ℕ, ◌≤◌, ◌≡◌, refl, ◌⊎◌, inl, inr, List, [], ◌∷◌, Option, none, some, arith, In, nat_eq, ◌==◌, ltb,
  if◌then◌else◌, Bool-cases, ◌≢◌, ◌∙◌,
}
use b7s.Common.Map.{Map}
use b7s.Models.{PeerId}
use b7s.Pbft.Message.{PrepareInfo, ViewChange}
use b7s.Pbft.NewView.{
  better, best_of, best_from, get_prepare, highest_of, highest_from, get_highest_sequence_number,
}

-- All certificates of a set of view changes, in the order of the loops.
abbrev pub Certified : Map PeerId ViewChange → PrepareInfo → Type 0
Certified [] info = ⊥
Certified ((replica, vc) ∷ rest) info = In info vc.prepares ⊎ Certified rest info

-- The choice so far is no worse than another choice.
abbrev pub AtLeast : Option PrepareInfo → Option PrepareInfo → Type 0
AtLeast out none = Unit
AtLeast none (some b) = ⊥
AtLeast (some a) (some b) = b.view ≤ a.view

AtLeast-refl : (a : Option PrepareInfo) → AtLeast a a
AtLeast-refl none = tt
AtLeast-refl (some a) = omega arith

AtLeast-trans : (a b c : Option PrepareInfo) → AtLeast a b → AtLeast b c → AtLeast a c
AtLeast-trans a b none h k = tt
AtLeast-trans (some a) (some b) (some c) h k = omega arith
AtLeast-trans none (some b) c h k = absurd h
AtLeast-trans a none (some c) h k = absurd k

abbrev step_of : ℕ → PrepareInfo → Option PrepareInfo → Option PrepareInfo
step_of s p out = if p.sequence_number == s then better out p else out

step-AtLeast : (s : ℕ) (p : PrepareInfo) (out : Option PrepareInfo) → AtLeast (step_of s p out) out
step-AtLeast s p none = tt
step-AtLeast s p (some o) = ground arith

step-AtLeast_new :
    (s : ℕ) (p : PrepareInfo) (out : Option PrepareInfo)
    → p.sequence_number ≡ s
    → AtLeast (step_of s p out) (some p)
step-AtLeast_new s p none h = ground arith
step-AtLeast_new s p (some o) h = ground arith

best_of-AtLeast :
    (s : ℕ) (ps : List PrepareInfo) (out : Option PrepareInfo) → AtLeast (best_of s ps out) out
unfolding best_of
best_of-AtLeast s [] out = AtLeast-refl out
best_of-AtLeast s (p ∷ ps) out =
    AtLeast-trans _ (step_of s p out) out (best_of-AtLeast s ps _) (step-AtLeast s p out)

best_of-AtLeast-In :
    (s : ℕ) (ps : List PrepareInfo) (out : Option PrepareInfo) (info : PrepareInfo)
    → In info ps
    → info.sequence_number ≡ s
    → AtLeast (best_of s ps out) (some info)
unfolding best_of
best_of-AtLeast-In s [] out info m e = absurd m
best_of-AtLeast-In s (p ∷ ps) out info (inl here) e =
    AtLeast-trans _ (step_of s p out) (some info) (best_of-AtLeast s ps _)
      (rw here (step-AtLeast_new s p out (ground arith)))
best_of-AtLeast-In s (p ∷ ps) out info (inr later) e = best_of-AtLeast-In s ps _ info later e

best_from-AtLeast :
    (s : ℕ) (vcs : Map PeerId ViewChange) (out : Option PrepareInfo)
    → AtLeast (best_from s vcs out) out
unfolding best_from
best_from-AtLeast s [] out = AtLeast-refl out
best_from-AtLeast s ((replica, vc) ∷ rest) out =
    AtLeast-trans _ (best_of s vc.prepares out) out (best_from-AtLeast s rest _)
      (best_of-AtLeast s vc.prepares out)

best_from-AtLeast-Certified :
    (s : ℕ) (vcs : Map PeerId ViewChange) (out : Option PrepareInfo) (info : PrepareInfo)
    → Certified vcs info
    → info.sequence_number ≡ s
    → AtLeast (best_from s vcs out) (some info)
unfolding best_from
best_from-AtLeast-Certified s [] out info c e = absurd c
best_from-AtLeast-Certified s ((replica, vc) ∷ rest) out info (inl here) e =
    AtLeast-trans _ (best_of s vc.prepares out) (some info) (best_from-AtLeast s rest _)
      (best_of-AtLeast-In s vc.prepares out info here e)
best_from-AtLeast-Certified s ((replica, vc) ∷ rest) out info (inr later) e =
    best_from-AtLeast-Certified s rest _ info later e

-- Where the choice comes from.
abbrev From : (PrepareInfo → Type 0) → ℕ → Option PrepareInfo → Option PrepareInfo → Type 0
From Source s out result =
    (result ≡ out)
    ⊎ ((info : PrepareInfo) × (result ≡ some info) × Source info × (info.sequence_number ≡ s))

step-From :
    (s : ℕ) (p : PrepareInfo) (ps : List PrepareInfo) (out : Option PrepareInfo)
    → From (λ i. In i (p ∷ ps)) s out (step_of s p out)
step-From s p ps none = elim (Bool-cases (p.sequence_number == s)) [
  | inl e ↦ inr (p, rw e, inl refl, ground arith)
  | inr e ↦ inl (rw e)
]
step-From s p ps (some o) = elim (Bool-cases (p.sequence_number == s)) [
  | inr e ↦ inl (rw e)
  | inl e ↦ elim (Bool-cases (ltb o.view p.view)) [
    | inl f ↦ inr (p, rw (e, f), inl refl, ground arith)
    | inr f ↦ inl (rw (e, f))
  ]
]

From-trans :
    (P Q : PrepareInfo → Type 0) (s : ℕ) (a b c : Option PrepareInfo)
    → ((i : PrepareInfo) → P i → Q i)
    → From Q s a b
    → From P s b c
    → From Q s a c
From-trans P Q s a b c h (inl e) (inl f) = inl (f ∙ e)
From-trans P Q s a b c h (inr (i, e, q, n)) (inl f) = inr (i, f ∙ e, q, n)
From-trans P Q s a b c h k (inr (i, e, p, n)) = inr (i, e, h i p, n)

best_of-From :
    (s : ℕ) (ps : List PrepareInfo) (out : Option PrepareInfo)
    → From (λ i. In i ps) s out (best_of s ps out)
unfolding best_of
best_of-From s [] out = inl refl
best_of-From s (p ∷ ps) out =
    From-trans (λ i. In i ps) (λ i. In i (p ∷ ps)) s out (step_of s p out) _ (λ i m. inr m)
      (step-From s p ps out) (best_of-From s ps (step_of s p out))

best_from-From :
    (s : ℕ) (vcs : Map PeerId ViewChange) (out : Option PrepareInfo)
    → From (Certified vcs) s out (best_from s vcs out)
unfolding best_from
best_from-From s [] out = inl refl
best_from-From s ((replica, vc) ∷ rest) out =
    From-trans (Certified rest) (Certified ((replica, vc) ∷ rest)) s out (best_of s vc.prepares out)
      _ (λ i m. inr m)
      (From-trans (λ i. In i vc.prepares) (Certified ((replica, vc) ∷ rest)) s out out _
        (λ i m. inl m) (inl refl) (best_of-From s vc.prepares out))
      (best_from-From s rest (best_of s vc.prepares out))

-- If `getPrepare` finds a certificate for a sequence number, then it is one from the view changes
-- with that number, and no certificate there with that number is from a higher view. If it finds
-- none, then no certificate there has that number.
pub get_prepare_highest_view :
    (vcs : Map PeerId ViewChange) (s : ℕ)
    → ((info : PrepareInfo) × (get_prepare vcs s ≡ some info)
        × Certified vcs info
        × (info.sequence_number ≡ s)
        × ((other : PrepareInfo)
            → Certified vcs other
            → other.sequence_number ≡ s
            → other.view ≤ info.view))
      ⊎ ((get_prepare vcs s ≡ none)
          × ((other : PrepareInfo) → Certified vcs other → other.sequence_number ≢ s))
unfolding get_prepare
get_prepare_highest_view vcs s = elim (best_from-From s vcs none) [
  | inl e ↦ inr (e, λ other c n. rw e at (best_from-AtLeast-Certified s vcs none other c n))
  | inr (info, e, c, n) ↦
      inl (info, e, c, n, λ other k m. rw e at (best_from-AtLeast-Certified s vcs none other k m))
]

highest_of-le : (ps : List PrepareInfo) (max : ℕ) → max ≤ highest_of ps max
unfolding highest_of
highest_of-le [] max = omega arith
highest_of-le (p ∷ ps) max =
    ground (arith, highest_of-le ps (if ltb max p.sequence_number then p.sequence_number else max))

highest_of-In :
    (ps : List PrepareInfo) (max : ℕ) (info : PrepareInfo)
    → In info ps
    → info.sequence_number ≤ highest_of ps max
unfolding highest_of
highest_of-In [] max info m = absurd m
highest_of-In (p ∷ ps) max info (inl here) =
    ground (arith, highest_of-le ps (if ltb max p.sequence_number then p.sequence_number else max))
highest_of-In (p ∷ ps) max info (inr later) = highest_of-In ps _ info later

highest_of-attained :
    (ps : List PrepareInfo) (max : ℕ)
    → (highest_of ps max ≡ max)
      ⊎ ((info : PrepareInfo) × In info ps × (highest_of ps max ≡ info.sequence_number))
unfolding highest_of
highest_of-attained [] max = inl refl
highest_of-attained (p ∷ ps) max = elim (Bool-cases (ltb max p.sequence_number)) [
  | inl e ↦ rw e (elim (highest_of-attained ps p.sequence_number) [
    | inl f ↦ inr (p, inl refl, f)
    | inr (i, m, f) ↦ inr (i, inr m, f)
  ])
  | inr e ↦
      rw e (elim (highest_of-attained ps max) [ inl f ↦ inl f | inr (i, m, f) ↦ inr (i, inr m, f) ])
]

highest_from-le : (vcs : Map PeerId ViewChange) (max : ℕ) → max ≤ highest_from vcs max
unfolding highest_from
highest_from-le [] max = omega arith
highest_from-le ((replica, vc) ∷ rest) max =
    omega (arith, highest_of-le vc.prepares max, highest_from-le rest (highest_of vc.prepares max))

highest_from-Certified :
    (vcs : Map PeerId ViewChange) (max : ℕ) (info : PrepareInfo)
    → Certified vcs info
    → info.sequence_number ≤ highest_from vcs max
unfolding highest_from
highest_from-Certified [] max info c = absurd c
highest_from-Certified ((replica, vc) ∷ rest) max info (inl here) = omega (
  arith,
  highest_of-In vc.prepares max info here,
  highest_from-le rest (highest_of vc.prepares max),
)
highest_from-Certified ((replica, vc) ∷ rest) max info (inr later) =
    highest_from-Certified rest _ info later

highest_from-attained :
    (vcs : Map PeerId ViewChange) (max : ℕ)
    → (highest_from vcs max ≡ max)
      ⊎ ((info : PrepareInfo) × Certified vcs info × (highest_from vcs max ≡ info.sequence_number))
unfolding highest_from
highest_from-attained [] max = inl refl
highest_from-attained ((replica, vc) ∷ rest) max =
    elim (highest_from-attained rest (highest_of vc.prepares max)) [
      | inr (i, c, e) ↦ inr (i, inr c, e)
      | inl e ↦ elim (highest_of-attained vc.prepares max) [
        | inl f ↦ inl (e ∙ f)
        | inr (i, m, f) ↦ inr (i, inl m, e ∙ f)
      ]
    ]

-- The highest sequence number is at least that of every certificate in the view changes, and it is 0
-- or that of one of them.
pub get_highest_sequence_number_bounds :
    (vcs : Map PeerId ViewChange)
    → ((info : PrepareInfo)
        → Certified vcs info
        → info.sequence_number ≤ get_highest_sequence_number vcs)
      × ((get_highest_sequence_number vcs ≡ 0)
          ⊎ ((info : PrepareInfo) × Certified vcs info
              × (get_highest_sequence_number vcs ≡ info.sequence_number)))
unfolding get_highest_sequence_number
get_highest_sequence_number_bounds vcs =
    (λ info c. highest_from-Certified vcs 0 info c, highest_from-attained vcs 0)
