-- ===== src/Pbft/Evolve.antt =====
-- How the handlers change a replica: by a few kinds of writes. A relation between the replica before
-- and after that holds of each kind holds of every handler; the children prove this.
pub mod Normal
pub mod Requests
pub mod Views
pub mod Runs
use b7s.Common.{
  ℕ, nat_eq, Bool, true, false, List, Option, none, some, ◌≡◌, ◌⊎◌, if◌then◌else◌, Bool-cases, inl,
  inr,
}
use b7s.Common.Text.{Text, text_eq}
use b7s.Common.Map.{Map, lookup, insert, has}
use b7s.Models.{PeerId, NodeResult, ExecuteResponse}
use b7s.Pbft.Core.{get_message_id, message_id_eq}
use b7s.Pbft.Message.{Payload, Request, PrePrepare, Prepare, Commit, ViewChange, NewView}
use b7s.Pbft.State.{Replica, ViewChangeReceipts, sent, post_processed}
use b7s.Pbft.Action.{Env, Error, Result, ok, err, Action, follow, Done, logged, ◌>>=◌, ◌>>◌}
use b7s.Pbft.Messaging.{log_event}
use b7s.Pbft.Timer.{increment, start_request_timer, stop_request_timer}
use b7s.Pbft.Execute.{run_request}
use b7s.Pbft.Commit.{record_commit_receipt}
use b7s.Pbft.Prepare.{record_prepare_receipt}
use b7s.Pbft.PrePrepare.{save_pre_prepare, note_pre_prepare}
use b7s.Pbft.Request.{save_request, queue_request}
use b7s.Pbft.Cleanup.{cleanup_state}
use b7s.Pbft.ViewChange.{enter_view_change, record_view_change_receipt, start_view_change}
use b7s.Pbft.NewView.{
  add_own_view_change, save_new_pre_prepare, enter_view, process_view_change, process_new_view,
}

abbrev pub save_result : Text → ExecuteResponse → Replica → Replica
save_result id msg r = record r {
  state = record r.state { executions = insert id msg r.executions };
}

abbrev pub take_sequence : Replica → Replica
take_sequence r = record r { core = record r.core { sequence = increment r.sequence } }

-- A receipt is the sender's of the message at hand, or the replica's own.
abbrev pub Recorded : PeerId → Replica → PeerId → Type 0
Recorded from r p = (p ≡ from) ⊎ (p ≡ r.id)

-- The relation holds of the writes of the normal operation, under what the code has tested before.
-- The message at hand is from `from`.
pub record HoldsNormally (from : PeerId) (R : Replica → Replica → Type 0) : Type 0 where
  pub same : (r : Replica) → R r r
  pub join : (a b c : Replica) → R a b → R b c → R a c
  pub send :
      (to : PeerId) (msg : Payload) (d : Bool) (r : Replica) → R r (log_event (sent to msg d) r)
  pub post :
      (proc : Text) (request : Request) (nres : NodeResult) (r : Replica)
      → R r (log_event (post_processed proc request nres) r)
  pub start_timer : (override : Bool) (r : Replica) → R r (start_request_timer override r)
  pub stop_timer : (r : Replica) → R r (stop_request_timer r)
  pub run :
      (digest : Text) (request : Request) (r : Replica)
      → lookup digest r.requests ≡ some request
      → R r (run_request (increment r.last_executed) digest request r)
  pub result : (id : Text) (msg : ExecuteResponse) (r : Replica) → R r (save_result id msg r)
  pub prepare :
      (p : PeerId) (m : Prepare) (r : Replica)
      → Recorded from r p
      → R r (record_prepare_receipt p m r)
  pub commit :
      (p : PeerId) (m : Commit) (r : Replica)
      → Recorded from r p
      → R r (record_commit_receipt p m r)
  pub sequence : (r : Replica) → R r (take_sequence r)
  pub propose : (pp : PrePrepare) (r : Replica) → R r (save_pre_prepare pp r)
  pub note :
      (pp : PrePrepare) (r : Replica)
      → lookup (get_message_id pp.view pp.sequence_number) r.pre_prepares ≡ none
      → R r (note_pre_prepare pp r)
  pub seen : (digest : Text) (req : Request) (r : Replica) → R r (save_request digest req r)
  pub queue : (digest : Text) (req : Request) (r : Replica) → R r (queue_request digest req r)

-- And of the writes of the view changes.
pub record HoldsAlways (from : PeerId) (R : Replica → Replica → Type 0) : Type 0 where
  pub normal : HoldsNormally from R
  pub open normal use *
  pub change : (view : ℕ) (r : Replica) → R r (enter_view_change view r)
  pub receipt :
      (p : PeerId) (m : ViewChange) (r : Replica)
      → Recorded from r p
      → R r (record_view_change_receipt p m r)
  pub own :
      (view : ℕ) (vcs : ViewChangeReceipts) (r : Replica)
      → lookup view r.view_changes ≡ some vcs
      → R r (add_own_view_change view vcs r)
  pub cleanup : (view : ℕ) (r : Replica) → R r (cleanup_state view r)
  pub install : (pp : PrePrepare) (r : Replica) → R r (save_new_pre_prepare pp r)
  pub enter : (view : ℕ) (r : Replica) → R r (enter_view view r)

pub both-HoldsNormally :
    (from : PeerId) (R S : Replica → Replica → Type 0)
    → HoldsNormally from R
    → HoldsNormally from S
    → HoldsNormally from (λ a b. R a b × S a b)
both-HoldsNormally from R S h k = record {
  same = λ r. (h.same r, k.same r);
  join = λ a b c f g. (h.join a b c f.0 g.0, k.join a b c f.1 g.1);
  send = λ target msg d r. (h.send target msg d r, k.send target msg d r);
  post = λ proc request nres r. (h.post proc request nres r, k.post proc request nres r);
  start_timer = λ override r. (h.start_timer override r, k.start_timer override r);
  stop_timer = λ r. (h.stop_timer r, k.stop_timer r);
  run = λ digest request r known. (h.run digest request r known, k.run digest request r known);
  result = λ id msg r. (h.result id msg r, k.result id msg r);
  prepare = λ p m r s. (h.prepare p m r s, k.prepare p m r s);
  commit = λ p m r s. (h.commit p m r s, k.commit p m r s);
  sequence = λ r. (h.sequence r, k.sequence r);
  propose = λ pp r. (h.propose pp r, k.propose pp r);
  note = λ pp r free. (h.note pp r free, k.note pp r free);
  seen = λ digest req r. (h.seen digest req r, k.seen digest req r);
  queue = λ digest req r. (h.queue digest req r, k.queue digest req r);
}

-- And of the writes with which one view is opened.
pub record HoldsOpening (from : PeerId) (view : ℕ) (R : Replica → Replica → Type 0) : Type 0 where
  pub normal : HoldsNormally from R
  pub open normal use *
  pub own :
      (vcs : ViewChangeReceipts) (r : Replica)
      → lookup view r.view_changes ≡ some vcs
      → R r (add_own_view_change view vcs r)
  pub cleanup : (r : Replica) → R r (cleanup_state view r)
  pub install : (pp : PrePrepare) (r : Replica) → R r (save_new_pre_prepare pp r)
  pub enter : (r : Replica) → R r (enter_view view r)

pub always-HoldsOpening :
    (from : PeerId) (R : Replica → Replica → Type 0) (view : ℕ)
    → HoldsAlways from R
    → HoldsOpening from view R
always-HoldsOpening from R view h = record {
  normal = h.normal;
  own = h.own view;
  cleanup = h.cleanup view;
  install = h.install;
  enter = h.enter view;
}

pub map-HoldsNormally :
    (from : PeerId) (R S : Replica → Replica → Type 0)
    → ((a b : Replica) → R a b → S a b)
    → ((a b c : Replica) → S a b → S b c → S a c)
    → HoldsNormally from R
    → HoldsNormally from S
map-HoldsNormally from R S to join h = record {
  same = λ r. to _ _ (h.same r);
  join = join;
  send = λ target msg d r. to _ _ (h.send target msg d r);
  post = λ proc request nres r. to _ _ (h.post proc request nres r);
  start_timer = λ override r. to _ _ (h.start_timer override r);
  stop_timer = λ r. to _ _ (h.stop_timer r);
  run = λ digest request r known. to _ _ (h.run digest request r known);
  result = λ id msg r. to _ _ (h.result id msg r);
  prepare = λ p m r s. to _ _ (h.prepare p m r s);
  commit = λ p m r s. to _ _ (h.commit p m r s);
  sequence = λ r. to _ _ (h.sequence r);
  propose = λ pp r. to _ _ (h.propose pp r);
  note = λ pp r free. to _ _ (h.note pp r free);
  seen = λ digest req r. to _ _ (h.seen digest req r);
  queue = λ digest req r. to _ _ (h.queue digest req r);
}

-- The relation holds between a replica and what an action makes of it, whether it fails or not.
abbrev pub Evolves : {A : Type 0} → (Replica → Replica → Type 0) → Action A → Type 0
Evolves R act = (r : Replica) → R r (act r).1

module _ (from : PeerId) (R : Replica → Replica → Type 0) (h : HoldsNormally from R) where
  follow-Evolves :
      {A B : Type 0} (next : A → Action B) (r : Replica) (out : Result A × Replica)
      → R r out.1
      → ((a : A) → Evolves R (next a))
      → R r (follow next out).1
  unfolding follow
  follow-Evolves next r (ok a, s) before after = h.join r s _ before (after a s)
  follow-Evolves next r (err e, s) before after = before

  pub bind-Evolves :
      {A B : Type 0} (act : Action A) (next : A → Action B)
      → Evolves R act
      → ((a : A) → Evolves R (next a))
      → Evolves R (act >>= next)
  bind-Evolves act next before after r = follow-Evolves next r (act r) (before r) after

-- And of the handlers of the view changes as a whole.
pub record HoldsHandled (from : PeerId) (R : Replica → Replica → Type 0) : Type 0 where
  pub normal : HoldsNormally from R
  pub open normal use *
  pub begin : (env : Env) (view : ℕ) → Evolves R (start_view_change env view)
  pub changed : (env : Env) (m : ViewChange) → Evolves R (process_view_change env from m)
  pub entered : (env : Env) (m : NewView) → Evolves R (process_new_view env from m)

-- What an action ends in is what its first part ends in, or its second.
pub follow_end :
    {A B : Type 0} (P : Replica → Type 0) (next : A → Action B) (out : Result A × Replica)
    → P out.1
    → ((a : A) → P (next a out.1).1)
    → P (follow next out).1
unfolding follow
follow_end P next (ok a, s) first second = second a
follow_end P next (err e, s) first second = first
