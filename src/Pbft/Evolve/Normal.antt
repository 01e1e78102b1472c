-- ===== src/Pbft/Evolve/Normal.antt =====
-- The handlers of the normal operation.
use b7s.Common.{
  ℕ, Bool, true, false, List, [], ◌∷◌, Option, none, some, ◌≡◌, ◌⊎◌, refl, if◌then◌else◌,
  Bool-cases, Option-cases, inl, inr, not, ◌==◌, nat_eq, eq_of_beq, arith,
}
use b7s.Common.Text.{Text, text_eq}
use b7s.Common.Map.{lookup, has}
use b7s.Models.{PeerId, NodeResult, ExecuteResult, ExecuteResponse}
use b7s.Pbft.Core.{get_message_id, message_id_eq}
use b7s.Pbft.Message.{
  Payload, Signable, Request, PrePrepare, Prepare, Commit, message, pre_prepare_signable,
  prepare_signable, commit_signable, execute_response,
}
use b7s.Pbft.State.{Replica, sent}
use b7s.Pbft.Action.{Env, ok, Action, or_raise, ◌>>◌, Error}
use b7s.Pbft.Messaging.{log_event, send, send_to_peers, broadcast, is_empty, save_trace_context}
use b7s.Pbft.Timer.{increment}
use b7s.Pbft.Conditions.{is_primary, primary_replica_id, pre_prepared, committed}
use b7s.Pbft.Execute.{post_process, report_result, run_request, execute_pending, execute}
use b7s.Pbft.Commit.{
  send_commit, execute_if_committed, maybe_send_commit, should_send_commit, process_commit,
}
use b7s.Pbft.Prepare.{send_prepare, accept_prepare, process_prepare}
use b7s.Pbft.PrePrepare.{answer_pre_prepare, save_if_free, accept_pre_prepare, process_pre_prepare}
use b7s.Pbft.Evolve.{HoldsNormally, Evolves, bind-Evolves}

-- A send that could not encode its message has changed nothing; any other has left an event.
send_cases :
    (env : Env) (to : PeerId) (msg : ExecuteResponse) (r : Replica)
    → ((send env to msg r).1 ≡ r)
      ⊎ ((p : Payload) × (d : Bool) × ((send env to msg r).1 ≡ log_event (sent to p d) r))
unfolding send
send_cases env to msg r =
    let t = env.trace_info r.history in
    let traced : ExecuteResponse = if is_empty t then msg else record msg { trace_info = t } in
    elim (Option-cases (env.marshal (execute_response traced))) [
      | inl e ↦ inl (ground arith)
      | inr (payload, e) ↦
          inr (execute_response traced, env.delivers r.history to payload, ground arith)
    ]

broadcast_cases :
    {M : Type 0} ⦃s : Signable M⦄ (env : Env) (m : M) (r : Replica)
    → ((broadcast env m r).1 ≡ r)
      ⊎ ((p : Payload) × (t : Text) × ((broadcast env m r).1 ≡ (send_to_peers env p t r.peers r).1))
unfolding broadcast
broadcast_cases ⦃s⦄ env m r =
    let traced = save_trace_context (env.trace_info r.history) m in
    elim (Option-cases (env.marshal (message (s.as_message traced)))) [
      | inl e ↦ inl (ground arith)
      | inr (payload, e) ↦ inr (message (s.as_message traced), payload, ground arith)
    ]

module _ (from : PeerId) (R : Replica → Replica → Type 0) (h : HoldsNormally from R) where
  pub if-Evolves :
      {A : Type 0} (c : Bool) (a b : Action A)
      → Evolves R a
      → Evolves R b
      → Evolves R (λ r. if c then a r else b r)
  if-Evolves true a b ha hb r = ha r
  if-Evolves false a b ha hb r = hb r

  -- Reading and failing write nothing.
  pub or_raise-Evolves : {A : Type 0} (o : Option A) (e : Error) → Evolves R (or_raise o e)
  or_raise-Evolves none e r = h.same r
  or_raise-Evolves (some a) e r = h.same r

  pub send-Evolves : (env : Env) (to : PeerId) (msg : ExecuteResponse) → Evolves R (send env to msg)
  send-Evolves env to msg r = elim (send_cases env to msg r) [
    | inl e ↦ rw e (h.same r)
    | inr (p, d, e) ↦ rw e (h.send to p d r)
  ]

  send_to_peers-Evolves :
      (env : Env) (msg : Payload) (payload : Text) (targets : List PeerId) (r : Replica)
      → R r (send_to_peers env msg payload targets r).1
  unfolding send_to_peers
  send_to_peers-Evolves env msg payload [] r = h.same r
  send_to_peers-Evolves env msg payload (t ∷ ts) r = elim (Bool-cases (t == r.id)) [
    | inl own ↦ rw own (send_to_peers-Evolves env msg payload ts r)
    | inr other ↦
        let d = env.delivers r.history t payload in
        rw other (
          h.join r (log_event (sent t msg d) r) _ (h.send t msg d r)
            (send_to_peers-Evolves env msg payload ts (log_event (sent t msg d) r)))
  ]

  pub broadcast-Evolves :
      {M : Type 0} ⦃s : Signable M⦄ (env : Env) (m : M) → Evolves R (broadcast env m)
  broadcast-Evolves ⦃s⦄ env m r = elim (broadcast_cases env m r) [
    | inl e ↦ rw e (h.same r)
    | inr (p, t, e) ↦ rw e (send_to_peers-Evolves env p t r.peers r)
  ]

  post_process-Evolves :
      (procs : List Text) (req : Request) (nres : NodeResult) (r : Replica)
      → R r (post_process procs req nres r)
  unfolding post_process
  post_process-Evolves [] req nres r = h.same r
  post_process-Evolves (p ∷ ps) req nres r =
      h.join r _ _ (h.post p req nres r) (post_process-Evolves ps req nres _)

  report_result-Evolves :
      (env : Env) (req : Request) (res : ExecuteResult) → Evolves R (report_result env req res)
  unfolding report_result
  report_result-Evolves env req res = bind-Evolves from R h _ _ h.same λ unsigned.
      bind-Evolves from R h _ _ h.same λ nres. bind-Evolves from R h _ _ h.same λ msg.
        bind-Evolves from R h _ _ (λ r. h.result req.id msg r)
          λ _.
            bind-Evolves from R h _ _ (λ r. post_process-Evolves _ req nres r)
              λ _. send-Evolves env req.origin msg

  run-Evolves :
      (sequence : ℕ) (digest : Text) (request : Request) (r : Replica)
      → lookup digest r.requests ≡ some request
      → sequence ≡ increment r.last_executed
      → R r (run_request sequence digest request r)
  run-Evolves sequence digest request r known e = rw e (h.run digest request r known)

  execute_pending-Evolves :
      (env : Env) (sequence : ℕ) (digest : Text) (request : Request) (r : Replica)
      → lookup digest r.requests ≡ some request
      → R r (execute_pending env sequence digest request r).1
  unfolding execute_pending
  execute_pending-Evolves env sequence digest request r known =
      elim (Bool-cases (has (lookup digest r.pending))) [
        | inr absent ↦ rw absent (h.same r)
        | inl pending ↦ elim (Bool-cases (sequence == increment r.last_executed)) [
          | inr later ↦ rw (pending, later) (h.same r)
          | inl next ↦
              rw (pending, next)
                (h.join r _ _ (run-Evolves sequence digest request r known (eq_of_beq _ _ next))
                  (report_result-Evolves env request _ _))
        ]
      ]

  pub execute-Evolves :
      (env : Env) (view sequence : ℕ) (digest : Text) → Evolves R (execute env view sequence digest)
  unfolding execute
  execute-Evolves env view sequence digest r = elim (Option-cases (lookup digest r.requests)) [
    | inl e ↦ rw (e, execute) (h.same r)
    | inr (request, e) ↦ rw (e, execute) (execute_pending-Evolves env sequence digest request r e)
  ]

  pub execute_if_committed-Evolves :
      (env : Env) (view sequence : ℕ) (digest : Text)
      → Evolves R (execute_if_committed env view sequence digest)
  unfolding execute_if_committed
  execute_if_committed-Evolves env view sequence digest r =
      if-Evolves (committed r view sequence digest) (execute env view sequence digest)
        (λ s. (ok tt, s)) (execute-Evolves env view sequence digest) h.same r

  pub send_commit-Evolves :
      (env : Env) (view sequence : ℕ) (digest : Text)
      → Evolves R (send_commit env view sequence digest)
  unfolding send_commit
  send_commit-Evolves env view sequence digest = bind-Evolves from R h _ _ h.same λ signed.
      bind-Evolves from R h _ _ (broadcast-Evolves env signed)
        λ traced. λ r. h.commit r.id traced r (inr refl)

  pub maybe_send_commit-Evolves :
      (env : Env) (view sequence : ℕ) (digest : Text)
      → Evolves R (maybe_send_commit env view sequence digest)
  unfolding maybe_send_commit
  maybe_send_commit-Evolves env view sequence digest r =
      if-Evolves (should_send_commit r view sequence digest)
        (send_commit env view sequence digest >> execute_if_committed env view sequence digest)
        (λ s. (ok tt, s))
        (bind-Evolves from R h _ _ (send_commit-Evolves env view sequence digest)
          λ _. execute_if_committed-Evolves env view sequence digest)
        h.same r

  pub process_commit-Evolves : (env : Env) (m : Commit) → Evolves R (process_commit env from m)
  unfolding process_commit
  process_commit-Evolves env m = bind-Evolves from R h _ _ h.same λ view.
      bind-Evolves from R h _ _ h.same λ _. bind-Evolves from R h _ _ h.same λ _.
        bind-Evolves from R h _ _ (λ r. h.commit from m r (inl refl))
          λ _. execute_if_committed-Evolves env m.view m.sequence_number m.digest

  pub send_prepare-Evolves : (env : Env) (pp : PrePrepare) → Evolves R (send_prepare env pp)
  unfolding send_prepare
  send_prepare-Evolves env pp = bind-Evolves from R h _ _ h.same λ signed.
      bind-Evolves from R h _ _ (broadcast-Evolves env signed)
        λ traced. λ r. h.prepare r.id traced r (inr refl)

  pub process_prepare-Evolves : (env : Env) (m : Prepare) → Evolves R (process_prepare env from m)
  unfolding process_prepare
  process_prepare-Evolves env m r =
      if-Evolves (from == primary_replica_id r) (λ s. (ok tt, s)) (accept_prepare env from m) h.same
        (bind-Evolves from R h _ _ h.same λ view. bind-Evolves from R h _ _ h.same λ _.
          bind-Evolves from R h _ _ h.same λ _.
            bind-Evolves from R h _ _ (λ r. h.prepare from m r (inl refl))
              λ _. maybe_send_commit-Evolves env m.view m.sequence_number m.digest)
        r

  answer_pre_prepare-Evolves : (env : Env) (pp : PrePrepare) → Evolves R (answer_pre_prepare env pp)
  unfolding answer_pre_prepare
  answer_pre_prepare-Evolves env pp r =
      if-Evolves (not (pre_prepared r pp.view pp.sequence_number pp.digest)) (λ s. (ok tt, s))
        (send_prepare env pp >> maybe_send_commit env pp.view pp.sequence_number pp.digest) h.same
        (bind-Evolves from R h _ _ (send_prepare-Evolves env pp)
          λ _. maybe_send_commit-Evolves env pp.view pp.sequence_number pp.digest)
        r

  save_if_free-Evolves : (env : Env) (pp : PrePrepare) → Evolves R (save_if_free env pp)
  unfolding save_if_free
  save_if_free-Evolves env pp r =
      elim (Option-cases (lookup (get_message_id pp.view pp.sequence_number) r.pre_prepares)) [
        | inr (old, e) ↦ rw (e, has) (h.same r)
        | inl e ↦ rw (e, has) (h.join r _ _ (h.note pp r e) (answer_pre_prepare-Evolves env pp _))
      ]

  pub process_pre_prepare-Evolves :
      (env : Env) (replica : PeerId) (m : PrePrepare)
      → Evolves R (process_pre_prepare env replica m)
  unfolding process_pre_prepare accept_pre_prepare
  process_pre_prepare-Evolves env replica m r = elim (Bool-cases (is_primary r)) [
    | inl e ↦ rw e (h.same r)
    | inr e ↦ rw e (
        if-Evolves (not (replica == primary_replica_id r)) (λ t. (ok tt, t))
          (accept_pre_prepare env m) h.same
          (bind-Evolves from R h _ _ h.same λ view. bind-Evolves from R h _ _ h.same λ _.
            bind-Evolves from R h _ _ h.same
              λ leader. bind-Evolves from R h _ _ h.same λ _. save_if_free-Evolves env m)
          r)
  ]
