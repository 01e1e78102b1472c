-- ===== src/Pbft/Ascent/Joining.antt =====
-- Joining a view change (`processViewChange` of consensus/pbft/view_change.go) before leading it.
use b7s.Common.{
  ℕ, ◌+◌, ◌≤◌, ◌<◌, ◌≡◌, refl, arith, nat_eq, nat_beq_iff, true, false, inl, inr, Bool-cases,
  Option-cases, In, ◌==◌, ◌&&◌,
}
use b7s.Common.Text.{text_eq}
use b7s.Common.Map.{lookup}
use b7s.Common.Map.Values.{lookup-In}
use b7s.Pbft.Message.{view_change_signable}
use b7s.Pbft.State.{Replica, ViewChangeReceipts}
use b7s.Pbft.Action.{Env}
use b7s.Pbft.Conditions.{view_change_ready}
use b7s.Pbft.ViewChange.{count_others, should_send_view_change, start_view_change}
use b7s.Pbft.ViewChange.Joining.{Supported, should_send_view_change_lowest}
use b7s.Pbft.NewView.{join_view_change}
use b7s.Pbft.Evolve.Views.{start_view_change-Evolves}
use b7s.Pbft.Receipts.Kept.{genuine-HoldsAlways}
use b7s.Pbft.Receipts.Genuine.{IsGenuine, Keeps, view_changes_at-Genuine}
use b7s.Pbft.Ascent.Others.{others, ready_others, start_view_change_cases}

others-Supported :
    (r : Replica) (view : ℕ)
    → r.view < view
    → r.f + 1 ≤ others r view
    → (vcs : ViewChangeReceipts) × In (view, vcs) r.view_changes × Supported r (view, vcs)
unfolding count_others
others-Supported r view later h = elim (Option-cases (lookup view r.view_changes)) [
  | inl e ↦ absurd (ground (arith, h, e))
  | inr (vcs, e) ↦ (vcs, lookup-In view vcs r.view_changes e, (later, ground (arith, h, e)))
]

-- The view that a replica joins is no later than any that f + 1 others have asked for.
join_lowest :
    (r : Replica) (view : ℕ)
    → (should_send_view_change r).1 ≡ true
    → r.view < view
    → r.f + 1 ≤ others r view
    → (should_send_view_change r).0 ≤ view
join_lowest r view e later h = elim (should_send_view_change_lowest r) [
  | inl (off, q) ↦ absurd (ground (arith, q, e))
  | inr (inr (on, q, n)) ↦ absurd (ground (arith, q, e))
  | inr (inl (on, o, m, s, q, least)) ↦
      let (vcs, i, k) = others-Supported r view later h in ground (arith, q, least (view, vcs) i k)
]

joins_active : (r : Replica) → (should_send_view_change r).1 ≡ true → r.active_view ≡ true
unfolding should_send_view_change
joins_active r e = ground arith

-- A replica that joins a view change while a view is ready does not pass that view.
pub join_ready :
    (env : Env) (view : ℕ) (r : Replica)
    → 1 ≤ r.f
    → IsGenuine r
    → r.view ≤ view
    → ((view == r.view) && r.active_view) ≡ false
    → let r' = (join_view_change env r).1 in
      (r.view ≤ r'.view) × (view_change_ready r' view ≡ true → r'.view ≤ view)
unfolding join_view_change
join_ready env view r f v low idle = elim (Bool-cases ((should_send_view_change r).1)) [
  | inr e ↦ rw e (omega arith, λ ready. low)
  | inl e ↦
      let w = (should_send_view_change r).0 in
      let r' = (start_view_change env w r).1 in
      let (bounds, fs, ids, same) = start_view_change_cases env w r in
      let v' =
        (start_view_change-Evolves r.id (Keeps r.id) (genuine-HoldsAlways r.id) env w r).3
          (inr refl) v in
      let later : r.view < view = ground (arith, joins_active r e, nat_beq_iff view r.view) in
      rw e (
        bounds.0,
        λ ready.
            let many =
              ready_others r' view (view_changes_at-Genuine r'.peers view r'.view_changes v'.3).0
                ready in
            ground
              (arith, bounds, join_lowest r view e later (ground (arith, many, fs, same view))),
      )
]
