-- ===== src/Pbft/Placed.antt =====
-- Where the pre-prepares of a replica stand, and what the certificates of its own view changes hold.
pub mod Certificates
use b7s.Common.{
  ℕ, Bool, false, ◌&&◌, List, [], ◌∷◌, ◌≡◌, refl, arith, nat_eq, ltb, not, select, if◌then◌else◌,
  Bool-cases, inl, inr, none,
}
use b7s.Common.Text.{Text, text_eq}
use b7s.Common.Map.{Map, lookup, insert, erase, has}
use b7s.Common.Map.Count.{Distinct}
use b7s.Common.Map.Values.{Values, empty-Values, insert-Values, insert-Distinct}
use b7s.Models.{PeerId}
use b7s.Pbft.Core.{MessageId, message_id_eq, get_message_id}
use b7s.Pbft.Message.{Request, PrePrepare, Prepare}
use b7s.Pbft.State.{Replica}
use b7s.Pbft.Action.{Env}
use b7s.Pbft.Messaging.{is_empty}
use b7s.Pbft.Timer.{start_request_timer, stop_request_timer}
use b7s.Pbft.Execute.{run_request}
use b7s.Pbft.Commit.{record_commit_receipt}
use b7s.Pbft.Prepare.{record_prepare_receipt}
use b7s.Pbft.PrePrepare.{note_pre_prepare}
use b7s.Pbft.Cleanup.{discard_below, cleanup_state}
use b7s.Pbft.Cleanup.Lookup.{lookup-discard_below}
use b7s.Pbft.ViewChange.{record_view_change_receipt}
use b7s.Pbft.Receipts.Kept.{kept-Values}
use b7s.Pbft.Evolve.{HoldsNormally, HoldsAlways}
use b7s.Pbft.Evolve.Views.{always-HoldsHandled}
use b7s.Pbft.Evolve.Runs.{Input, run, run-Evolves}

-- A pre-prepare stands at the view and sequence number that it names.
abbrev pub StandsAt : MessageId → PrePrepare → Type 0
StandsAt id pp = get_message_id pp.view pp.sequence_number ≡ id

-- And the prepares of a place stand together.
abbrev pub Placed : Replica → Type 0
Placed r = Values StandsAt r.pre_prepares × Distinct r.prepares

abbrev Keeps : Replica → Replica → Type 0
Keeps r r' = Placed r → Placed r'

start_request_timer-Keeps :
    (override : Bool) (r : Replica) → Keeps r (start_request_timer override r)
unfolding start_request_timer
start_request_timer-Keeps override r v = elim (Bool-cases (has r.request_timer && not override)) [
  | inl e ↦ rw e v
  | inr e ↦ rw e v
]

run_request-Keeps :
    (sequence : ℕ) (digest : Text) (request : Request) (r : Replica)
    → Keeps r (run_request sequence digest request r)
unfolding run_request stop_request_timer start_request_timer
run_request-Keeps sequence digest request r v =
    elim (Bool-cases (is_empty (erase digest r.pending))) [ inl e ↦ rw e v | inr e ↦ rw e v ]

discard_below-Distinct :
    {V : Type 0} (t : ℕ) (m : Map MessageId V) → Distinct m → Distinct (discard_below t m)
unfolding discard_below select
discard_below-Distinct t [] d = tt
discard_below-Distinct t ((id, v) ∷ m) d = elim (Bool-cases (ltb id.view t)) [
  | inl e ↦ rw e (discard_below-Distinct t m d.1)
  | inr e ↦ rw e (ground (arith, d.0, lookup-discard_below t id m), discard_below-Distinct t m d.1)
]

placed-HoldsNormally : (from : PeerId) → HoldsNormally from Keeps
unfolding stop_request_timer record_prepare_receipt record_commit_receipt note_pre_prepare
placed-HoldsNormally from = record {
  same = λ r v. v;
  join = λ a b c f g v. g (f v);
  send = λ to msg d r v. v;
  post = λ proc request nres r v. v;
  start_timer = start_request_timer-Keeps;
  stop_timer = λ r v. v;
  run = λ digest request r known. run_request-Keeps _ digest request r;
  result = λ id msg r v. v;
  prepare = λ p m r s v.
      (v.0, insert-Distinct (get_message_id m.view m.sequence_number) _ r.prepares v.1);
  commit = λ p m r s v. v;
  sequence = λ r v. v;
  propose = λ pp r v. (
    insert-Values StandsAt (get_message_id pp.view pp.sequence_number) pp r.pre_prepares refl v.0,
    v.1,
  );
  note = λ pp r free v. start_request_timer-Keeps false _ (
    insert-Values StandsAt (get_message_id pp.view pp.sequence_number) pp r.pre_prepares refl v.0,
    v.1,
  );
  seen = λ digest req r v. v;
  queue = λ digest req r v. v;
}

placed-HoldsAlways : (from : PeerId) → HoldsAlways from Keeps
unfolding record_view_change_receipt cleanup_state stop_request_timer
placed-HoldsAlways from = record {
  normal = placed-HoldsNormally from;
  change = λ view r v. v;
  receipt = λ p m r s v. v;
  own = λ view vcs r known v. v;
  cleanup = λ view r v.
      (kept-Values StandsAt view r.pre_prepares v.0, discard_below-Distinct view r.prepares v.1);
  install = λ pp r v. (
    insert-Values StandsAt (get_message_id pp.view pp.sequence_number) pp r.pre_prepares refl v.0,
    v.1,
  );
  enter = λ view r v. v;
}

pub run-Placed : (inputs : List (Env × Input)) (r : Replica) → Placed r → Placed (run inputs r)
run-Placed inputs r =
    run-Evolves Keeps inputs r (λ from. always-HoldsHandled from Keeps (placed-HoldsAlways from))
