-- ===== src/Node/Cluster/Formed.antt =====
-- When a cluster is formed.
use b7s.Common.{
  suc, ◌≤◌, Bool, true, false, List, [], ◌∷◌, Option, none, some, length, ◌==◌, ◌≡◌, ◌≢◌, ◌↔◌, refl,
  sym, ap, arith, All, In, NoRepeats, Bool-cases, Option-cases, inl, inr, eq_of_beq,
}
use b7s.Common.Text.{Text, text_eq}
use b7s.Common.Map.{Map, insert, lookup, lookup-insert}
use b7s.Common.Outcome.{ok, Outcome-cases}
use b7s.Models.{PeerId}
use b7s.Models.Code.{Code}
use b7s.Models.Code
use b7s.Node.Sending.{send_to_many}
use b7s.Node.Sending.Outcomes.{Reaches, send_to_many_all}
use b7s.Node.Cluster.{is_ok, bootstrapped, form_cluster}

length-insert :
    {V : Type 0} (k : Text) (v : V) (m : Map Text V)
    → (lookup k m ≡ none → length (insert k v m) ≡ suc (length m))
      × ((w : V) → lookup k m ≡ some w → length (insert k v m) ≡ length m)
unfolding insert lookup
length-insert k v [] = (λ h. refl, λ w h. ground arith)
length-insert k v ((j, u) ∷ m) = elim (Bool-cases (j == k)) [
  | inl y ↦ rw y (λ h. ground arith, λ w h. refl)
  | inr n ↦ rw n (
    λ h. ground (arith, (length-insert k v m).0),
    λ w h. ground (arith, (length-insert k v m).1 w),
  )
]

module _ (peer_text : PeerId → Text) (replies : PeerId → Option Code)
    (injective : (a b : PeerId) → peer_text a ≡ peer_text b → a ≡ b) where
  lookup-bootstrapped :
      (p : PeerId) (ps : List PeerId)
      → is_ok (replies p) ≡ true
      → (lookup (peer_text p) (bootstrapped peer_text replies ps) ≡ none) ↔ (In p ps → ⊥)
  unfolding bootstrapped lookup
  lookup-bootstrapped p [] y = (λ h i. i, λ h. refl)
  lookup-bootstrapped p (q ∷ ps) y = elim (Bool-cases (is_ok (replies q))) [
    | inl o ↦
        rw (o, lookup-insert)
          (elim (Bool-cases (peer_text q == peer_text p)) [
            | inl e ↦ rw e (
              λ h. ground arith,
              λ n. absurd (n (inl (sym (injective q p (eq_of_beq (peer_text q) (peer_text p) e))))),
            )
            | inr e ↦ rw e (
              λ h i. elim i [
                | inl a ↦ absurd (differs (peer_text q) (peer_text p) e (ap peer_text (sym a)))
                | inr i ↦ (lookup-bootstrapped p ps y).0 h i
              ],
              λ n. (lookup-bootstrapped p ps y).1 (λ i. n (inr i)),
            )
          ])
    | inr n ↦ rw n (
      λ h i. elim i [
        | inl a ↦ absurd (clash p q y n a)
        | inr i ↦ (lookup-bootstrapped p ps y).0 h i
      ],
      λ u. (lookup-bootstrapped p ps y).1 (λ i. u (inr i)),
    )
  ]
    where
      differs : (a b : Text) → (a == b) ≡ false → a ≢ b
      differs a b n e = ground (arith, text_eq.beq_iff a b)

      clash : (a b : PeerId) → is_ok (replies a) ≡ true → is_ok (replies b) ≡ false → a ≢ b
      clash a b u v e = cc

  bootstrapped_at_most : (ps : List PeerId) → length (bootstrapped peer_text replies ps) ≤ length ps
  unfolding bootstrapped
  bootstrapped_at_most [] = omega arith
  bootstrapped_at_most (p ∷ ps) = elim (Bool-cases (is_ok (replies p))) [
    | inl o ↦ elim (Option-cases (lookup (peer_text p) (bootstrapped peer_text replies ps))) [
      | inl n ↦
          rw (o, (length-insert (peer_text p) tt (bootstrapped peer_text replies ps)).0 n)
            (omega (arith, bootstrapped_at_most ps))
      | inr (w, e) ↦
          rw (o, (length-insert (peer_text p) tt (bootstrapped peer_text replies ps)).1 w e)
            (omega (arith, bootstrapped_at_most ps))
    ]
    | inr n ↦ rw n (omega (arith, bootstrapped_at_most ps))
  ]

  -- All have joined when the set is as large as the list.
  bootstrapped-All :
      (ps : List PeerId)
      → (length (bootstrapped peer_text replies ps) ≡ length ps)
        ↔ (All (λ p. is_ok (replies p) ≡ true) ps × NoRepeats ps)
  unfolding bootstrapped
  bootstrapped-All [] = (λ h. (tt, tt), λ h. refl)
  bootstrapped-All (p ∷ ps) = elim (Bool-cases (is_ok (replies p))) [
    | inl o ↦ elim (Option-cases (lookup (peer_text p) (bootstrapped peer_text replies ps))) [
      | inl n ↦
          rw (o, (length-insert (peer_text p) tt (bootstrapped peer_text replies ps)).0 n)
            (
              λ h.
                  let (a, r) = (bootstrapped-All ps).0 (ground arith) in
                  ((refl, a), ((lookup-bootstrapped p ps o).0 n, r)),
              λ ((e, a), (i, r)). ap suc ((bootstrapped-All ps).1 (a, r)),
            )
      | inr (w, e) ↦
          rw (o, (length-insert (peer_text p) tt (bootstrapped peer_text replies ps)).1 w e)
            (
              λ h. ground (arith, bootstrapped_at_most ps),
              λ ((u, a), (i, r)). ground (arith, (lookup-bootstrapped p ps o).1 i),
            )
    ]
    | inr n ↦ rw n (λ h. ground (arith, bootstrapped_at_most ps), λ ((u, a), b). ground arith)
  ]

is_ok_iff : (r : Option Code) → (is_ok r ≡ true) ↔ (r ≡ some Code.ok)
is_ok_iff none = (λ h. ground arith, λ h. ground arith)
is_ok_iff (some c) = ground (arith, text_eq.beq_iff c Code.ok)

All-is_ok :
    (replies : PeerId → Option Code) (ps : List PeerId)
    → All (λ p. is_ok (replies p) ≡ true) ps ↔ All (λ p. replies p ≡ some Code.ok) ps
All-is_ok replies [] = (λ h. h, λ h. h)
All-is_ok replies (p ∷ ps) = (
  λ h. ((is_ok_iff (replies p)).0 h.0, (All-is_ok replies ps).0 h.1),
  λ h. ((is_ok_iff (replies p)).1 h.0, (All-is_ok replies ps).1 h.1),
)

module _ (delivers : PeerId → Text → Bool) (peer_text : PeerId → Text)
    (replies : PeerId → Option Code) where
  -- If different peers have different texts: a cluster is formed just when no peer stands twice among
  -- the replicas, the request reached each of them, and each confirmed it with the code OK
  -- in time.
  pub form_cluster-ok :
      (payload : Text) (replicas : List PeerId)
      → ((a b : PeerId) → peer_text a ≡ peer_text b → a ≡ b)
      → (form_cluster delivers peer_text replies (some payload) replicas ≡ ok tt) ↔ (
          Reaches delivers payload replicas
          × All (λ p. replies p ≡ some Code.ok) replicas
          × NoRepeats replicas)
  unfolding form_cluster
  form_cluster-ok payload replicas injective =
      elim (Outcome-cases (send_to_many delivers replicas (some payload) true)) [
        | inr (e, q) ↦
            rw (form_cluster, q)
              (
                λ h. ground arith,
                λ (r, a, n). ground (arith, (send_to_many_all delivers payload replicas).1 r),
              )
        | inl (done, q) ↦
            rw (form_cluster, q)
              (
                λ h.
                    let (a, n) =
                      (bootstrapped-All peer_text replies injective replicas).0 (ground arith) in
                    (
                      (send_to_many_all delivers payload replicas).0 q,
                      (All-is_ok replies replicas).0 a,
                      n,
                    ),
                λ (r, a, n). ground (
                  arith,
                  (bootstrapped-All peer_text replies injective replicas).1
                      ((All-is_ok replies replicas).1 a, n),
                ),
              )
      ]
