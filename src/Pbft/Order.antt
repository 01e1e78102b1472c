-- ===== src/Pbft/Order.antt =====
-- The order of executions: the calls of the executor in the history of a replica.
use b7s.Common.{ℕ, Bool, false, List, [], ◌∷◌, ◌≡◌, refl, Bool-cases, inl, inr, not, ◌&&◌, arith}
use b7s.Common.Text.{Text, text_eq}
use b7s.Common.Map.{has, erase}
use b7s.Models.{PeerId}
use b7s.Pbft.Message.{Request}
use b7s.Pbft.State.{Replica, Event, sent, executed, post_processed, timer_started}
use b7s.Pbft.Action.{Env, ok}
use b7s.Pbft.Config.{Setting}
use b7s.Pbft.Messaging.{is_empty}
use b7s.Pbft.Timer.{increment, start_request_timer, stop_request_timer}
use b7s.Pbft.Execute.{run_request}
use b7s.Pbft.Commit.{record_commit_receipt}
use b7s.Pbft.Prepare.{record_prepare_receipt}
use b7s.Pbft.PrePrepare.{note_pre_prepare}
use b7s.Pbft.Cleanup.{cleanup_state}
use b7s.Pbft.ViewChange.{record_view_change_receipt}
use b7s.Pbft.Process.{new_replica}
use b7s.Pbft.Evolve.{HoldsNormally, HoldsAlways}
use b7s.Pbft.Evolve.Views.{always-HoldsHandled}
use b7s.Pbft.Evolve.Runs.{Input, run, run-Evolves}

-- The sequence numbers at which the executor was called, the last first.
abbrev pub executed_sequences : List Event → List ℕ
executed_sequences [] = []
executed_sequences (executed sequence request ∷ h) = sequence ∷ executed_sequences h
executed_sequences (sent to msg d ∷ h) = executed_sequences h
executed_sequences (post_processed proc request nres ∷ h) = executed_sequences h
executed_sequences (timer_started view ∷ h) = executed_sequences h

-- From the last down to the first without a gap, each one the increment of the one before, from 0.
abbrev pub RunsDown : ℕ → List ℕ → Type 0
RunsDown last [] = last ≡ 0
RunsDown last (s ∷ rest) = (s ≡ last) × (prev : ℕ) × (s ≡ increment prev) × RunsDown prev rest

abbrev pub InOrder : Replica → Type 0
InOrder r = RunsDown r.last_executed (executed_sequences r.history)

abbrev Keeps : Replica → Replica → Type 0
Keeps r r' = InOrder r → InOrder r'

start_request_timer-Keeps :
    (override : Bool) (r : Replica) → Keeps r (start_request_timer override r)
unfolding start_request_timer
start_request_timer-Keeps override r v = elim (Bool-cases (has r.request_timer && not override)) [
  | inl e ↦ rw e v
  | inr e ↦ rw e v
]

run_request-Keeps :
    (digest : Text) (request : Request) (r : Replica)
    → Keeps r (run_request (increment r.last_executed) digest request r)
unfolding run_request stop_request_timer start_request_timer
run_request-Keeps digest request r v = elim (Bool-cases (is_empty (erase digest r.pending))) [
  | inl e ↦ rw e (refl, r.last_executed, refl, v)
  | inr e ↦ rw e (refl, r.last_executed, refl, v)
]

order-HoldsNormally : (from : PeerId) → HoldsNormally from Keeps
unfolding stop_request_timer record_prepare_receipt record_commit_receipt note_pre_prepare
order-HoldsNormally from = record {
  same = λ r v. v;
  join = λ a b c f g v. g (f v);
  send = λ to msg d r v. v;
  post = λ proc request nres r v. v;
  start_timer = start_request_timer-Keeps;
  stop_timer = λ r v. v;
  run = λ digest request r known. run_request-Keeps digest request r;
  result = λ id msg r v. v;
  prepare = λ p m r s v. v;
  commit = λ p m r s v. v;
  sequence = λ r v. v;
  propose = λ pp r v. v;
  note = λ pp r free v. start_request_timer-Keeps false _ v;
  seen = λ digest req r v. v;
  queue = λ digest req r v. v;
}

order-HoldsAlways : (from : PeerId) → HoldsAlways from Keeps
unfolding record_view_change_receipt cleanup_state stop_request_timer
order-HoldsAlways from = record {
  normal = order-HoldsNormally from;
  change = λ view r v. v;
  receipt = λ p m r s v. v;
  own = λ view vcs r known v. v;
  cleanup = λ view r v. v;
  install = λ pp r v. v;
  enter = λ view r v. v;
}

fresh-RunsDown :
    (last : ℕ) (h : List Event) → last ≡ 0 → h ≡ [] → RunsDown last (executed_sequences h)
fresh-RunsDown last h e f = rw f e

new_replica_fresh :
    (own : PeerId) (byzantine : Bool) (peers : List PeerId) (settings : List Setting) (r : Replica)
    → new_replica own byzantine peers settings ≡ ok r
    → (r.last_executed ≡ 0) × (r.history ≡ [])
unfolding new_replica
new_replica_fresh own byzantine peers settings r e = ground arith

-- After any run of inputs to a new replica, whatever the outside answers, the sequence numbers at which
-- the executor was called run one after another up to the last executed one: the first is the
-- increment of 0, and each is the increment, modulo 2^64, of the one before it.
pub run-InOrder :
    (own : PeerId) (byzantine : Bool) (peers : List PeerId) (settings : List Setting)
    (inputs : List (Env × Input)) (r : Replica)
    → new_replica own byzantine peers settings ≡ ok r
    → InOrder (run inputs r)
run-InOrder own byzantine peers settings inputs r e =
    let (last, h) = new_replica_fresh own byzantine peers settings r e in
    run-Evolves Keeps inputs r (λ from. always-HoldsHandled from Keeps (order-HoldsAlways from))
      (fresh-RunsDown r.last_executed r.history last h)
