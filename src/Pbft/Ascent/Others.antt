-- ===== src/Pbft/Ascent/Others.antt =====
-- The view changes of the others at a view, under what the replica writes while it begins one itself.
use b7s.Common.{
  ℕ, Bool, ◌+◌, ◌*◌, ◌≤◌, ◌≡◌, refl, arith, nat_eq, nat_beq_iff, true, false, [], ◌∷◌, inl, inr,
  Bool-cases, length, if◌then◌else◌, leb, not, ◌&&◌, ◌∙◌,
}
use b7s.Common.Text.{Text, text_eq, text_beq_iff}
use b7s.Common.Map.{Map, lookup, insert, erase, has, lookup-insert}
use b7s.Common.Map.Count.{Distinct}
use b7s.Models.{PeerId}
use b7s.Pbft.Core.{commit_quorum}
use b7s.Pbft.Message.{Request, ViewChange}
use b7s.Pbft.State.{Replica}
use b7s.Pbft.Action.{Env}
use b7s.Pbft.Messaging.{is_empty}
use b7s.Pbft.Timer.{start_request_timer, stop_request_timer}
use b7s.Pbft.Conditions.{view_change_ready}
use b7s.Pbft.Execute.{run_request}
use b7s.Pbft.Commit.{record_commit_receipt}
use b7s.Pbft.Prepare.{record_prepare_receipt}
use b7s.Pbft.PrePrepare.{note_pre_prepare}
use b7s.Pbft.ViewChange.{
  view_changes_at, count_others, record_view_change_receipt, start_view_change, enter_view_change,
}
use b7s.Pbft.Evolve.{HoldsNormally}
use b7s.Pbft.Evolve.Views.{announce_view_change-Evolves}

abbrev pub others : Replica → ℕ → ℕ
others r view = count_others r.id (view_changes_at (lookup view r.view_changes)).m

-- The view and the view changes of the others stay.
abbrev pub Level : Replica → Replica → Type 0
Level r r' =
    (r'.view ≡ r.view)
    × (r'.f ≡ r.f)
    × (r'.id ≡ r.id)
    × ((view : ℕ) → others r' view ≡ others r view)

Level-join : (a b c : Replica) → Level a b → Level b c → Level a c
Level-join a b c f g = (g.0 ∙ f.0, g.1 ∙ f.1, g.2 ∙ f.2, λ view. g.3 view ∙ f.3 view)

abbrev level : (r : Replica) → Level r r
level r = (refl, refl, refl, λ view. refl)

start_request_timer-Level :
    (override : Bool) (r : Replica) → Level r (start_request_timer override r)
unfolding start_request_timer
start_request_timer-Level override r = elim (Bool-cases (has r.request_timer && not override)) [
  | inl e ↦ rw e (level r)
  | inr e ↦ rw e (level r)
]

run_request-Level :
    (sequence : ℕ) (digest : Text) (request : Request) (r : Replica)
    → Level r (run_request sequence digest request r)
unfolding run_request stop_request_timer start_request_timer
run_request-Level sequence digest request r =
    elim (Bool-cases (is_empty (erase digest r.pending))) [
      | inl e ↦ rw e (level r)
      | inr e ↦ rw e (level r)
    ]

pub level-HoldsNormally : (from : PeerId) → HoldsNormally from Level
unfolding stop_request_timer record_prepare_receipt record_commit_receipt note_pre_prepare
level-HoldsNormally from = record {
  same = level;
  join = Level-join;
  send = λ to msg d r. level r;
  post = λ proc request nres r. level r;
  start_timer = start_request_timer-Level;
  stop_timer = λ r. level r;
  run = λ digest request r known. run_request-Level _ digest request r;
  result = λ id msg r. level r;
  prepare = λ p m r s. level r;
  commit = λ p m r s. level r;
  sequence = λ r. level r;
  propose = λ pp r. level r;
  note = λ pp r free. start_request_timer-Level false _;
  seen = λ digest req r. level r;
  queue = λ digest req r. level r;
}

count_others-insert :
    (own : PeerId) (vc : ViewChange) (m : Map PeerId ViewChange)
    → count_others own (insert own vc m) ≡ count_others own m
unfolding count_others insert
count_others-insert own vc [] = ground (arith, text_beq_iff own own)
count_others-insert own vc ((p, old) ∷ m) =
    ground (arith, text_beq_iff p own, text_beq_iff own own, count_others-insert own vc m)

-- A map with distinct keys has at most one entry of the replica itself.
length-le-count_others :
    (own : PeerId) (m : Map PeerId ViewChange)
    → Distinct m
    → length m ≤ count_others own m + (if has (lookup own m) then 1 else 0)
unfolding count_others lookup
length-le-count_others own [] d = omega arith
length-le-count_others own ((p, vc) ∷ m) d =
    ground (arith, d.0, text_beq_iff p own, length-le-count_others own m d.1)

-- A view that is ready has enough view changes of others to be joined.
pub ready_others :
    (r : Replica) (view : ℕ)
    → Distinct (view_changes_at (lookup view r.view_changes)).m
    → view_change_ready r view ≡ true
    → 2 * r.f ≤ others r view
unfolding view_change_ready commit_quorum
ready_others r view d h =
    ground (arith, length-le-count_others r.id (view_changes_at (lookup view r.view_changes)).m d)

own_view_change-Level :
    (m : ViewChange) (r : Replica) → Level r (record_view_change_receipt r.id m r)
unfolding record_view_change_receipt
own_view_change-Level m r = (
  refl,
  refl,
  refl,
  λ view.
      let old = view_changes_at (lookup m.view r.view_changes) in
      elim (Bool-cases (has (lookup r.id old.m))) [
        | inl e ↦
            rw e (
              ground (arith, nat_beq_iff m.view view, lookup-insert m.view view old r.view_changes))
        | inr e ↦ rw e (
            ground (
              arith,
              nat_beq_iff m.view view,
              lookup-insert m.view view (record { m = insert r.id m old.m }) r.view_changes,
              count_others-insert r.id m old.m,
            ))
      ],
)

-- The replica that has begun a view change, or not, if the view was no later than its own.
pub start_view_change_cases :
    (env : Env) (view : ℕ) (r : Replica)
    → let r' = (start_view_change env view r).1 in
      ((r.view ≤ r'.view) × (r'.view ≤ (if leb view r.view then r.view else view)))
      × (r'.f ≡ r.f)
      × (r'.id ≡ r.id)
      × ((v : ℕ) → others r' v ≡ others r v)
unfolding start_view_change stop_request_timer
start_view_change_cases env view r = elim (Bool-cases (leb view r.view)) [
  | inl e ↦ rw e ((omega arith, omega arith), refl, refl, λ v. refl)
  | inr e ↦
      let (a, b, c, d) =
        announce_view_change-Evolves r.id Level (level-HoldsNormally r.id) own_view_change-Level env
          (enter_view_change view r) in
      rw e ((ground (arith, a), ground (arith, a)), b, c, d)
]
