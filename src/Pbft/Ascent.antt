-- ===== src/Pbft/Ascent.antt =====
-- The view of a replica never goes back: not when it begins a view change, and not when it starts a
-- new view as its primary, or enters it as a backup.
pub mod Others
pub mod Joining
use b7s.Common.{
  ℕ, ◌+◌, ◌*◌, ◌≤◌, ◌<◌, ◌≡◌, ◌⊎◌, refl, arith, nat_eq, nat_beq_iff, true, false, List, [], ◌∷◌,
  none, some, inl, inr, Bool-cases, Option-cases, In, leb, ltb, ◌==◌, ◌&&◌, not, if◌then◌else◌,
}
use b7s.Common.Text.{text_eq}
use b7s.Common.Map.{lookup}
use b7s.Common.Map.Values.{lookup-In}
use b7s.Common.Map.Count.{Distinct}
use b7s.Models.{PeerId}
use b7s.Pbft.Core.{primary}
use b7s.Pbft.Message.{ViewChange, NewView, view_change_signable}
use b7s.Pbft.State.{Replica, ViewChangeReceipts}
use b7s.Pbft.Action.{Env, Result, ok, err, logged, lift, ◌>>◌, follow}
use b7s.Pbft.Conditions.{peer_at, view_change_ready}
use b7s.Pbft.Signature.{verify_signature}
use b7s.Pbft.ViewChange.{
  view_changes_at, count_others, should_send_view_change, start_view_change,
  record_view_change_receipt, valid_view_change,
}
use b7s.Pbft.ViewChange.Joining.{Supported, should_send_view_change_lowest}
use b7s.Pbft.NewView.{
  start_new_view, join_view_change, lead_new_view, follow_view_change, accept_view_change,
  process_view_change, valid_new_view, follow_new_view, process_new_view,
}
use b7s.Pbft.Cleanup.{cleanup_state}
use b7s.Pbft.Evolve.{
  HoldsNormally, HoldsOpening, HoldsHandled, map-HoldsNormally, both-HoldsNormally, bind-Evolves,
  follow_end,
}
use b7s.Pbft.Evolve.Normal.{if-Evolves}
use b7s.Pbft.Evolve.Views.{
  start_new_view-Evolves, follow_new_view-Evolves, start_view_change-Evolves,
}
use b7s.Pbft.Evolve.Runs.{Input, step, run, step-Evolves}
use b7s.Pbft.Receipts.Kept.{
  genuine-HoldsNormally, genuine-HoldsAlways, genuine-HoldsHandled, run-Genuine,
}
use b7s.Pbft.Receipts.Genuine.{
  IsGenuine, Keeps, Keeps-join, record_view_change_receipt-Keeps, view_changes_at-Genuine,
}
use b7s.Pbft.Ascent.Others.{
  Level, others, level-HoldsNormally, ready_others, start_view_change_cases,
}
use b7s.Pbft.Ascent.Joining.{join_ready}
use b7s.Pbft.Reached.{Reached, Reached-Genuine}

-- Up to the view that is opened.
abbrev Opens : ℕ → Replica → Replica → Type 0
Opens view r r' = r.view ≤ view → (r'.view ≤ view) × (r.view ≤ r'.view)

Opens-join : (view : ℕ) (a b c : Replica) → Opens view a b → Opens view b c → Opens view a c
Opens-join view a b c f g u =
    let (low, up) = f u in let (low', up') = g low in (low', omega (arith, up, up'))

level-Opens : (view : ℕ) (r r' : Replica) → Level r r' → Opens view r r'
level-Opens view r r' l u = (ground (arith, l.0), ground (arith, l.0))

Opens-HoldsOpening : (from : PeerId) (view : ℕ) → HoldsOpening from view (Opens view)
unfolding cleanup_state
Opens-HoldsOpening from view = record {
  normal =
      map-HoldsNormally from Level (Opens view) (level-Opens view) (Opens-join view)
        (level-HoldsNormally from);
  own = λ vcs r known u. (u, omega arith);
  cleanup = λ r u. (u, omega arith);
  install = λ pp r u. (u, omega arith);
  enter = λ r u. (omega arith, u);
}

lead_new_view-Ascends :
    (env : Env) (view : ℕ) (r : Replica)
    → (view_change_ready r view ≡ true → r.view ≤ view)
    → r.view ≤ (lead_new_view env view r).1.view
unfolding lead_new_view
lead_new_view-Ascends env view r h =
    elim (Bool-cases (peer_at r.peers (primary r.core view) == r.id)) [
      | inr e ↦ rw e (omega arith)
      | inl e ↦ elim (Bool-cases (view_change_ready r view)) [
        | inr f ↦ rw (e, f) (omega arith)
        | inl f ↦
            let opened =
              start_new_view-Evolves r.id view (Opens view) (Opens-HoldsOpening r.id view) env r in
            rw (e, f) ((opened (h f)).1)
      ]
    ]

follow_view_change-Ascends :
    (env : Env) (view : ℕ) (r : Replica)
    → 1 ≤ r.f
    → IsGenuine r
    → r.view ≤ view
    → r.view ≤ (follow_view_change env view r).1.view
unfolding follow_view_change
follow_view_change-Ascends env view r f v low =
    elim (Bool-cases ((view == r.view) && r.active_view)) [
      | inl e ↦ rw e (omega arith)
      | inr e ↦
          let (up, ready) = join_ready env view r f v low e in
          rw e (
            follow_end (λ s. r.view ≤ s.view) _ (join_view_change env r) up
              (λ _.
                omega (arith, up, lead_new_view-Ascends env view (join_view_change env r).1 ready)))
    ]

abbrev Ascends : PeerId → Replica → Replica → Type 0
Ascends from r r' = (In from r.peers ⊎ (from ≡ r.id)) → 1 ≤ r.f → IsGenuine r → r.view ≤ r'.view

process_view_change-Ascends :
    (from : PeerId) (env : Env) (m : ViewChange) (r : Replica)
    → Ascends from r (process_view_change env from m r).1
unfolding process_view_change accept_view_change record_view_change_receipt
process_view_change-Ascends from env m r s f v = elim (Bool-cases (ltb m.view r.view)) [
  | inl e ↦ rw e (omega arith)
  | inr e ↦
      let P : Replica → Type 0 = λ t. r.view ≤ t.view in
      let same : r.view ≤ r.view = omega arith in
      let w = (record_view_change_receipt-Keeps from from m r (inl refl)).3 s v in
      rw e (
        follow_end P _ (lift (verify_signature env m from) r) same λ _.
          follow_end P _ (ok (valid_view_change env r m), r) same
            λ valid. follow_end P _ (lift valid r) same λ _.
              follow_end P _ (ok tt, record_view_change_receipt from m r) same
                λ _.
                  follow_view_change-Ascends env m.view (record_view_change_receipt from m r) f w
                    (ground arith))
]

process_new_view-Ascends :
    (from : PeerId) (env : Env) (m : NewView) (r : Replica)
    → Ascends from r (process_new_view env from m r).1
unfolding process_new_view
process_new_view-Ascends from env m r s f v = elim (Bool-cases (ltb m.view r.view)) [
  | inl e ↦ rw e (omega arith)
  | inr e ↦
      let h = Opens-HoldsOpening from m.view in
      let opened =
        bind-Evolves from (Opens m.view) h.normal (lift (valid_new_view env r from m)) _ h.same
          (λ _. follow_new_view-Evolves from (Opens m.view) h.normal env from m h) r in
      rw e ((opened (ground arith)).1)
]

abbrev Climbs : PeerId → Replica → Replica → Type 0
Climbs from r r' = Keeps from r r' × Ascends from r r'

Climbs-join :
    (from : PeerId) (a b c : Replica) → Climbs from a b → Climbs from b c → Climbs from a c
Climbs-join from a b c f g = (
  Keeps-join from a b c f.0 g.0,
  λ s t v. omega (arith, f.1 s t v, g.1 (rw (f.0.0, f.0.1) s) (rw (f.0.2) t) (f.0.3 s v)),
)

Climbs-HoldsHandled : (from : PeerId) → HoldsHandled from (Climbs from)
Climbs-HoldsHandled from =
    let k = genuine-HoldsHandled from in
    record {
      normal =
          map-HoldsNormally from (λ a b. Keeps from a b × Level a b) (Climbs from)
            (λ a b h. (h.0, λ s t v. ground (arith, h.1.0))) (Climbs-join from)
            (both-HoldsNormally from (Keeps from) Level (genuine-HoldsNormally from)
              (level-HoldsNormally from));
      begin = λ env view r. (k.begin env view r, λ s t v. (start_view_change_cases env view r).0.0);
      changed = λ env m r. (k.changed env m r, process_view_change-Ascends from env m r);
      entered = λ env m r. (k.entered env m r, process_new_view-Ascends from env m r);
    }

pub run-Ascends :
    (inputs : List (Env × Input)) (r : Replica)
    → 1 ≤ r.f
    → IsGenuine r
    → r.view ≤ (run inputs r).view
unfolding run
run-Ascends [] r f v = omega arith
run-Ascends ((env, input) ∷ rest) r f v =
    let (r', from, e, s, k) = step-Evolves Climbs env input r Climbs-HoldsHandled in
    let up = k.1 s f v in
    let after = run-Ascends rest r' (rw k.0.2 f) (k.0.3 s v) in
    rw (← e, run) (omega (arith, up, after))

-- A replica of the cluster, after any run from its start, does not go back to an earlier view
-- whatever inputs it handles next.
pub run_view_ascends :
    (peers : List PeerId) (r : Replica) (inputs : List (Env × Input))
    → Reached peers r
    → r.view ≤ (run inputs r).view
run_view_ascends peers r inputs h =
    let (ps, f, big, v) = Reached-Genuine peers r h in run-Ascends inputs r big v
