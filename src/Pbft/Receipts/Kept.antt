-- ===== src/Pbft/Receipts/Kept.antt =====
-- The receipts of a replica stay genuine under every handler.
use b7s.Common.{
  ℕ, Bool, false, List, [], ◌∷◌, some, ◌≡◌, refl, Bool-cases, inl, inr, not, ◌&&◌, arith, nat_eq,
}
use b7s.Common.Text.{Text, text_eq}
use b7s.Common.Map.{Map, lookup, erase, has}
use b7s.Common.Map.Values.{Values, insert-Values}
use b7s.Models.{PeerId}
use b7s.Pbft.Core.{MessageId, message_id_eq}
use b7s.Pbft.Message.{Request}
use b7s.Pbft.State.{Replica, ViewChangeReceipts}
use b7s.Pbft.Action.{Env}
use b7s.Pbft.Messaging.{is_empty}
use b7s.Pbft.Timer.{start_request_timer, stop_request_timer}
use b7s.Pbft.Execute.{run_request}
use b7s.Pbft.PrePrepare.{note_pre_prepare}
use b7s.Pbft.Cleanup.{discard_below, cleanup_state}
use b7s.Pbft.Cleanup.Lookup.{lookup-discard_below}
use b7s.Pbft.NewView.{add_own_view_change}
use b7s.Pbft.Evolve.{HoldsNormally, HoldsAlways, HoldsHandled}
use b7s.Pbft.Evolve.Views.{always-HoldsHandled}
use b7s.Pbft.Evolve.Runs.{Input, step, run, step-Evolves}
use b7s.Pbft.Receipts.Genuine.{
  IsGenuine, PreparesAt, CommitsAt, ViewChangesAt, Keeps, Keeps-join, unchanged, keep-ViewChangesAt,
  record_prepare_receipt-Keeps, record_commit_receipt-Keeps, record_view_change_receipt-Keeps,
}

start_request_timer-Keeps :
    (from : PeerId) (override : Bool) (r : Replica) → Keeps from r (start_request_timer override r)
unfolding start_request_timer
start_request_timer-Keeps from override r =
    elim (Bool-cases (has r.request_timer && not override)) [
      | inl e ↦ rw e (unchanged r)
      | inr e ↦ rw e (refl, refl, refl, λ s v. v)
    ]

run_request-Keeps :
    (from : PeerId) (sequence : ℕ) (digest : Text) (request : Request) (r : Replica)
    → Keeps from r (run_request sequence digest request r)
unfolding run_request stop_request_timer start_request_timer
run_request-Keeps from sequence digest request r =
    elim (Bool-cases (is_empty (erase digest r.pending))) [
      | inl e ↦ rw e (refl, refl, refl, λ s v. v)
      | inr e ↦ rw e (refl, refl, refl, λ s v. v)
    ]

pub kept-Values :
    {V : Type 0} (P : MessageId → V → Type 0) (t : ℕ) (m : Map MessageId V)
    → Values P m
    → Values P (discard_below t m)
kept-Values P t m h id v e = h id v (ground (arith, lookup-discard_below t id m))

cleanup_state-Keeps : (from : PeerId) (t : ℕ) (r : Replica) → Keeps from r (cleanup_state t r)
unfolding cleanup_state
cleanup_state-Keeps from t r = (
  refl,
  refl,
  refl,
  λ s v. (
    v.0,
    kept-Values (PreparesAt r.peers) t r.prepares v.1,
    kept-Values (CommitsAt r.peers) t r.commits v.2,
    v.3,
  ),
)

add_own_view_change-Keeps :
    (from : PeerId) (view : ℕ) (vcs : ViewChangeReceipts) (r : Replica)
    → lookup view r.view_changes ≡ some vcs
    → Keeps from r (add_own_view_change view vcs r)
add_own_view_change-Keeps from view vcs r known = (
  refl,
  refl,
  refl,
  λ s v. (
    v.0,
    v.1,
    v.2,
    insert-Values (ViewChangesAt r.peers) view _ r.view_changes
        (keep-ViewChangesAt r.peers view r.id _ vcs v.0 refl (v.3 view vcs known)) v.3,
  ),
)

pub genuine-HoldsNormally : (from : PeerId) → HoldsNormally from (Keeps from)
unfolding note_pre_prepare stop_request_timer
genuine-HoldsNormally from = record {
  same = unchanged;
  join = Keeps-join from;
  send = λ to msg d r. unchanged r;
  post = λ proc request nres r. unchanged r;
  start_timer = start_request_timer-Keeps from;
  stop_timer = λ r. (refl, refl, refl, λ s v. v);
  run = λ digest request r known. run_request-Keeps from _ digest request r;
  result = λ id msg r. (refl, refl, refl, λ s v. v);
  prepare = record_prepare_receipt-Keeps from;
  commit = record_commit_receipt-Keeps from;
  sequence = λ r. (refl, refl, refl, λ s v. v);
  propose = λ pp r. (refl, refl, refl, λ s v. v);
  note = λ pp r free. start_request_timer-Keeps from false _;
  seen = λ digest req r. (refl, refl, refl, λ s v. v);
  queue = λ digest req r. (refl, refl, refl, λ s v. v);
}

pub genuine-HoldsAlways : (from : PeerId) → HoldsAlways from (Keeps from)
unfolding stop_request_timer
genuine-HoldsAlways from = record {
  normal = genuine-HoldsNormally from;
  change = λ view r. (refl, refl, refl, λ s v. v);
  receipt = record_view_change_receipt-Keeps from;
  own = add_own_view_change-Keeps from;
  cleanup = cleanup_state-Keeps from;
  install = λ pp r. (refl, refl, refl, λ s v. v);
  enter = λ view r. (refl, refl, refl, λ s v. v);
}

pub genuine-HoldsHandled : (from : PeerId) → HoldsHandled from (Keeps from)
genuine-HoldsHandled from = always-HoldsHandled from (Keeps from) (genuine-HoldsAlways from)

pub run-Genuine :
    (inputs : List (Env × Input)) (r : Replica)
    → IsGenuine r
    → let r' = run inputs r in (r'.peers ≡ r.peers) × (r'.f ≡ r.f) × IsGenuine r'
unfolding run
run-Genuine [] r v = (refl, refl, v)
run-Genuine ((env, input) ∷ rest) r v =
    let (r', from, e, sender, k) = step-Evolves Keeps env input r genuine-HoldsHandled in
    let (peers, f, w) = run-Genuine rest (step env input r) (rw e at (k.3 sender v)) in
    (rw (peers, ← e) k.0, rw (f, ← e) k.2, w)
