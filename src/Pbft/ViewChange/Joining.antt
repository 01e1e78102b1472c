-- ===== src/Pbft/ViewChange/Joining.antt =====
-- When a replica joins a view change that others have begun, and for which view.
use b7s.Common.{
  ℕ, ◌+◌, ◌≤◌, ◌<◌, ◌≡◌, ◌≢◌, ◌⊎◌, inl, inr, refl, [], ◌∷◌, arith, nat_eq, true, false, Bool-cases,
  In, ◌∙◌,
}
use b7s.Common.Text.{text_eq}
use b7s.Common.Map.{Map}
use b7s.Pbft.State.{Replica, ViewChangeReceipts}
use b7s.Pbft.ViewChange.{count_others, consider_view, lowest_view, should_send_view_change}

-- A later view that more replicas than may be faulty, this one aside, have asked for.
abbrev pub Supported : Replica → ℕ × ViewChangeReceipts → Type 0
Supported r (view, vcs) = (r.view < view) × (r.f + 1 ≤ count_others r.id vcs.m)

consider_view-le :
    (r : Replica) (view lowest : ℕ) (vcs : ViewChangeReceipts)
    → lowest ≢ 0
    → (consider_view r view vcs lowest ≤ lowest) × (consider_view r view vcs lowest ≢ 0)
unfolding consider_view
consider_view-le r view lowest vcs h = ground arith

consider_view-Supported :
    (r : Replica) (view lowest : ℕ) (vcs : ViewChangeReceipts)
    → Supported r (view, vcs)
    → (consider_view r view vcs lowest ≤ view) × (consider_view r view vcs lowest ≢ 0)
unfolding consider_view
consider_view-Supported r view lowest vcs h = ground arith

consider_view-cases :
    (r : Replica) (view lowest : ℕ) (vcs : ViewChangeReceipts)
    → (consider_view r view vcs lowest ≡ lowest)
      ⊎ ((consider_view r view vcs lowest ≡ view) × Supported r (view, vcs))
unfolding consider_view
consider_view-cases r view lowest vcs = ground arith

lowest_view-le :
    (r : Replica) (m : Map ℕ ViewChangeReceipts) (lowest : ℕ)
    → lowest ≢ 0
    → (lowest_view r m lowest ≤ lowest) × (lowest_view r m lowest ≢ 0)
unfolding lowest_view
lowest_view-le r [] lowest h = (omega arith, h)
lowest_view-le r ((view, vcs) ∷ rest) lowest h =
    let step = consider_view-le r view lowest vcs h in
    let after = lowest_view-le r rest (consider_view r view vcs lowest) step.1 in
    (omega (arith, step.0, after.0), after.1)

lowest_view-Supported :
    (r : Replica) (m : Map ℕ ViewChangeReceipts) (lowest : ℕ) (e : ℕ × ViewChangeReceipts)
    → In e m
    → Supported r e
    → (lowest_view r m lowest ≤ e.0) × (lowest_view r m lowest ≢ 0)
unfolding lowest_view
lowest_view-Supported r [] lowest e m h = absurd m
lowest_view-Supported r ((view, vcs) ∷ rest) lowest e (inr later) h =
    lowest_view-Supported r rest _ e later h
lowest_view-Supported r ((view, vcs) ∷ rest) lowest e (inl here) h =
    let step = consider_view-Supported r view lowest vcs (rw here at h) in
    let after = lowest_view-le r rest (consider_view r view vcs lowest) step.1 in
    rw here (omega (arith, step.0, after.0), after.1)

lowest_view-cases :
    (r : Replica) (m : Map ℕ ViewChangeReceipts) (lowest : ℕ)
    → (lowest_view r m lowest ≡ lowest)
      ⊎ ((e : ℕ × ViewChangeReceipts) × In e m × Supported r e × (lowest_view r m lowest ≡ e.0))
unfolding lowest_view
lowest_view-cases r [] lowest = inl refl
lowest_view-cases r ((view, vcs) ∷ rest) lowest =
    elim (lowest_view-cases r rest (consider_view r view vcs lowest)) [
      | inr (e, m, s, q) ↦ inr (e, inr m, s, q)
      | inl q ↦ elim (consider_view-cases r view lowest vcs) [
        | inl p ↦ inl (q ∙ p)
        | inr (p, s) ↦ inr ((view, vcs), inl refl, s, q ∙ p)
      ]
    ]

pub should_send_view_change_lowest :
    (r : Replica)
    → ((r.active_view ≡ false) × (should_send_view_change r ≡ (0, false)))
      ⊎ ((r.active_view ≡ true)
          × (e : ℕ × ViewChangeReceipts) × In e r.view_changes
          × Supported r e
          × (should_send_view_change r ≡ (e.0, true))
          × ((o : ℕ × ViewChangeReceipts) → In o r.view_changes → Supported r o → e.0 ≤ o.0))
      ⊎ ((r.active_view ≡ true)
          × (should_send_view_change r ≡ (0, false))
          × ((o : ℕ × ViewChangeReceipts) → In o r.view_changes → ¬ Supported r o))
unfolding should_send_view_change
should_send_view_change_lowest r = elim (Bool-cases r.active_view) [
  | inr off ↦ inl (off, ground arith)
  | inl on ↦ elim (lowest_view-cases r r.view_changes 0) [
    | inr (e, m, s, q) ↦ inr (
        inl (
          on,
          e,
          m,
          s,
          ground arith,
          λ o k t. omega (arith, lowest_view-Supported r r.view_changes 0 o k t),
        ))
    | inl q ↦ inr (
        inr (
          on,
          ground arith,
          λ o k t. absurd ((lowest_view-Supported r r.view_changes 0 o k t).1 q),
        ))
  ]
]
