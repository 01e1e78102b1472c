-- ===== src/Pbft/Core/Quorum/Overlap.antt =====
-- Commit quorums that share as little as they can.
use b7s.Common.{
  ℕ, zero, suc, ◌+◌, ◌-◌, ◌%◌, ◌≤◌, Bool, ◌&&◌, List, [], ◌∷◌, none, length, select, ◌==◌, ◌≡◌, ◌≢◌,
  ◌⊎◌, nat_beq, refl, sym, subst, inl, inr, arith, In, NoRepeats, Bool-cases, eq_of_beq,
}
use b7s.Common.Text.{text_eq}
use b7s.Common.Map.{Map, lookup, has}
use b7s.Common.Map.Count.{Distinct, KeysIn}
use b7s.Models.{PeerId}
use b7s.Pbft.Core.{calc_byzantine_tolerance, new_pbft_core, commit_quorum}
use b7s.Pbft.Core.Quorum.{IsQuorum, shared, commit_quorums_overlap}

length-select_agree :
    (p q : PeerId → Bool) (xs : List PeerId)
    → ((x : PeerId) → In x xs → p x ≡ q x)
    → length (select p xs) ≡ length (select q xs)
unfolding select
length-select_agree p q [] h = refl
length-select_agree p q (x ∷ xs) h =
    ground (arith, h x (inl refl), length-select_agree p q xs (λ y m. h y (inr m)))

module _ {V : Type 0} (v : V) where
  -- Receipts of the first n peers, and of all but those.
  first : ℕ → List PeerId → Map PeerId V
  first zero peers = []
  first (suc n) [] = []
  first (suc n) (p ∷ peers) = (p, v) ∷ first n peers

  after : ℕ → List PeerId → Map PeerId V
  after n [] = []
  after zero (p ∷ peers) = (p, v) ∷ after zero peers
  after (suc n) (p ∷ peers) = after n peers

  KeysIn-cons :
      (p : PeerId) (peers : List PeerId) (m : Map PeerId V) → KeysIn peers m → KeysIn (p ∷ peers) m
  KeysIn-cons p peers [] k = tt
  KeysIn-cons p peers (entry ∷ m) k = (inr k.0, KeysIn-cons p peers m k.1)

  lookup-absent :
      (p : PeerId) (peers : List PeerId) (m : Map PeerId V)
      → (In p peers → ⊥)
      → KeysIn peers m
      → lookup p m ≡ none
  unfolding lookup
  lookup-absent p peers [] n k = refl
  lookup-absent p peers ((q, w) ∷ m) n k = elim (Bool-cases (q == p)) [
    | inl y ↦ absurd (n (subst (λ r. In r peers) (eq_of_beq q p y) k.0))
    | inr e ↦ rw e (lookup-absent p peers m n k.1)
  ]

  first-KeysIn : (n : ℕ) (peers : List PeerId) → KeysIn peers (first n peers)
  unfolding first
  first-KeysIn zero peers = tt
  first-KeysIn (suc n) [] = tt
  first-KeysIn (suc n) (p ∷ peers) = (inl refl, KeysIn-cons p peers _ (first-KeysIn n peers))

  after-KeysIn : (n : ℕ) (peers : List PeerId) → KeysIn peers (after n peers)
  unfolding after
  after-KeysIn n [] = tt
  after-KeysIn zero (p ∷ peers) = (inl refl, KeysIn-cons p peers _ (after-KeysIn zero peers))
  after-KeysIn (suc n) (p ∷ peers) = KeysIn-cons p peers _ (after-KeysIn n peers)

  first-Distinct : (n : ℕ) (peers : List PeerId) → NoRepeats peers → Distinct (first n peers)
  unfolding first
  first-Distinct zero peers u = tt
  first-Distinct (suc n) [] u = tt
  first-Distinct (suc n) (p ∷ peers) u =
      (lookup-absent p peers _ u.0 (first-KeysIn n peers), first-Distinct n peers u.1)

  after-Distinct : (n : ℕ) (peers : List PeerId) → NoRepeats peers → Distinct (after n peers)
  unfolding after
  after-Distinct n [] u = tt
  after-Distinct zero (p ∷ peers) u =
      (lookup-absent p peers _ u.0 (after-KeysIn zero peers), after-Distinct zero peers u.1)
  after-Distinct (suc n) (p ∷ peers) u = after-Distinct n peers u.1

  length-first : (n : ℕ) (peers : List PeerId) → n ≤ length peers → length (first n peers) ≡ n
  unfolding first
  length-first zero peers h = refl
  length-first (suc n) [] h = omega arith
  length-first (suc n) (p ∷ peers) h = omega (arith, length-first n peers (omega arith))

  length-after :
      (n : ℕ) (peers : List PeerId) → n ≤ length peers → length (after n peers) + n ≡ length peers
  unfolding after
  length-after n [] h = omega arith
  length-after zero (p ∷ peers) h = omega (arith, length-after zero peers (omega arith))
  length-after (suc n) (p ∷ peers) h = omega (arith, length-after n peers (omega arith))

  -- An entry for another peer makes no difference.
  lookup-skip :
      (p x : PeerId) (peers : List PeerId) (m : Map PeerId V)
      → (In p peers → ⊥)
      → In x peers
      → lookup x ((p, v) ∷ m) ≡ lookup x m
  unfolding lookup
  lookup-skip p x peers m n i = elim (Bool-cases (p == x)) [
    | inl y ↦ absurd (n (subst (λ r. In r peers) (sym (eq_of_beq p x y)) i))
    | inr e ↦ rw e refl
  ]

  length-shared_none : (peers : List PeerId) (b : Map PeerId V) → length (shared peers [] b) ≡ 0
  unfolding select lookup
  length-shared_none [] b = refl
  length-shared_none (p ∷ peers) b = length-shared_none peers b

  shared-both :
      (p : PeerId) (peers : List PeerId) (a b : Map PeerId V)
      → (In p peers → ⊥)
      → length (shared (p ∷ peers) ((p, v) ∷ a) ((p, v) ∷ b)) ≤ suc (length (shared peers a b))
  unfolding select
  shared-both p peers a b n =
      let rest =
        length-select_agree (λ x. has (lookup x ((p, v) ∷ a)) && has (lookup x ((p, v) ∷ b)))
          (λ x. has (lookup x a) && has (lookup x b)) peers
          (λ x i. rw (lookup-skip p x peers a n i, lookup-skip p x peers b n i) refl) in
      ground (arith, rest)

  shared-left :
      (p : PeerId) (peers : List PeerId) (a b : Map PeerId V)
      → (In p peers → ⊥)
      → KeysIn peers b
      → length (shared (p ∷ peers) ((p, v) ∷ a) b) ≡ length (shared peers a b)
  unfolding select
  shared-left p peers a b n k =
      let rest =
        length-select_agree (λ x. has (lookup x ((p, v) ∷ a)) && has (lookup x b))
          (λ x. has (lookup x a) && has (lookup x b)) peers
          (λ x i. rw (lookup-skip p x peers a n i) refl) in
      ground (arith, rest, lookup-absent p peers b n k)

  -- The peers after the first i of the first i + j.
  length-shared :
      (i j k : ℕ) (peers : List PeerId)
      → k ≡ i + j
      → NoRepeats peers
      → length (shared peers (first k peers) (after i peers)) ≤ j
  unfolding first after select
  length-shared i j k [] e u = omega arith
  length-shared zero j zero (p ∷ peers) e u =
      omega (arith, length-shared_none (p ∷ peers) (after zero (p ∷ peers)))
  length-shared zero zero (suc k) (p ∷ peers) e u = ground arith
  length-shared zero (suc j) (suc k) (p ∷ peers) e u = omega (
    arith,
    shared-both p peers (first k peers) (after zero peers) u.0,
    length-shared zero j k peers (omega arith) u.1,
  )
  length-shared (suc i) j zero (p ∷ peers) e u = ground arith
  length-shared (suc i) j (suc k) (p ∷ peers) e u = omega (
    arith,
    shared-left p peers (first k peers) (after i peers) u.0 (after-KeysIn i peers),
    length-shared i j k peers (omega arith) u.1,
  )

-- The smallest overlap: the peers that two commit quorums have too many.
least_overlap :
    {V : Type 0} (v : V) (peers : List PeerId)
    → NoRepeats peers
    → 1 ≤ length peers
    → let q = commit_quorum (new_pbft_core (length peers)) in
      (a b : Map PeerId V) × IsQuorum peers a
      × IsQuorum peers b
      × (length (shared peers a b) ≤ q - (length peers - q))
unfolding commit_quorum new_pbft_core calc_byzantine_tolerance
least_overlap v peers u h =
    let q = commit_quorum (new_pbft_core (length peers)) in
    let i = length peers - q in
    let j = q - i in
    (
      first v (i + j) peers,
      after v i peers,
      (
        first-Distinct v (i + j) peers u,
        first-KeysIn v (i + j) peers,
        ground (arith, length-first v (i + j) peers),
      ),
      (after-Distinct v i peers u, after-KeysIn v i peers, ground (arith, length-after v i peers)),
      length-shared v i j (i + j) peers refl u,
    )

-- In a cluster of at least one peer, without repeats: either the number of peers is 1 modulo 3, and
-- any two commit quorums of receipts share more peers than may be faulty; or it is not, and there
-- are two commit quorums that share no more peers than may be faulty.
pub commit_quorums_overlap_cases :
    {V : Type 0} (v : V) (peers : List PeerId)
    → NoRepeats peers
    → 1 ≤ length peers
    → ((length peers % 3 ≡ 1)
        × ((a b : Map PeerId V)
            → IsQuorum peers a
            → IsQuorum peers b
            → calc_byzantine_tolerance (length peers) + 1 ≤ length (shared peers a b)))
      ⊎ ((length peers % 3 ≢ 1)
          × ((a b : Map PeerId V) × IsQuorum peers a
              × IsQuorum peers b
              × (length (shared peers a b) ≤ calc_byzantine_tolerance (length peers))))
unfolding commit_quorum new_pbft_core calc_byzantine_tolerance
commit_quorums_overlap_cases v peers u h = elim (Bool-cases (nat_beq (length peers % 3) 1)) [
  | inl y ↦
      let one : length peers % 3 ≡ 1 = ground arith in
      inl (one, λ a b qa qb. commit_quorums_overlap peers a b one qa qb)
  | inr n ↦
      let (a, b, qa, qb, least) = least_overlap v peers u h in
      inr ((λ e. ground arith), (a, b, qa, qb, ground (arith, least)))
]
