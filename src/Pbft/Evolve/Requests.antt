-- ===== src/Pbft/Evolve/Requests.antt =====
-- The handlers of requests, and the proposals of the primary.
use b7s.Common.{false, Option-cases, inl, inr, not, nat_eq}
use b7s.Common.Text.{Text, text_eq}
use b7s.Common.Map.{lookup}
use b7s.Models.{PeerId}
use b7s.Pbft.Core.{message_id_eq}
use b7s.Pbft.Message.{Request, pre_prepare_signable, prepare_signable, commit_signable}
use b7s.Pbft.State.{Replica}
use b7s.Pbft.Action.{Env, ok}
use b7s.Pbft.Conditions.{is_primary}
use b7s.Pbft.PrePrepare.{propose, send_pre_prepare}
use b7s.Pbft.Request.{
  drop_request, queue_and_propose, process_new_request, process_verified_request, process_request,
}
use b7s.Pbft.Evolve.Normal.{if-Evolves, or_raise-Evolves, send-Evolves, broadcast-Evolves}
use b7s.Pbft.Evolve.{HoldsNormally, Evolves, bind-Evolves}

module _ (from : PeerId) (R : Replica → Replica → Type 0) (h : HoldsNormally from R) where
  propose-Evolves : (env : Env) (req : Request) → Evolves R (propose env req)
  unfolding propose
  propose-Evolves env req = bind-Evolves from R h _ _ h.sequence λ _.
      bind-Evolves from R h _ _ h.same λ msg. bind-Evolves from R h _ _ h.same λ conflict.
        bind-Evolves from R h _ _ h.same λ _. bind-Evolves from R h _ _ h.same λ signed.
          bind-Evolves from R h _ _ (broadcast-Evolves from R h env signed)
            λ traced. h.propose traced

  pub send_pre_prepare-Evolves : (env : Env) (req : Request) → Evolves R (send_pre_prepare env req)
  unfolding send_pre_prepare
  send_pre_prepare-Evolves env req r =
      if-Evolves from R h (not (is_primary r)) (λ s. (ok tt, s)) (propose env req) h.same
        (propose-Evolves env req) r

  queue_and_propose-Evolves :
      (env : Env) (digest : Text) (req : Request) → Evolves R (queue_and_propose env digest req)
  unfolding queue_and_propose
  queue_and_propose-Evolves env digest req = bind-Evolves from R h _ _ h.same λ pending.
      bind-Evolves from R h _ _ h.same
        λ _. bind-Evolves from R h _ _ (h.queue digest req) λ _. send_pre_prepare-Evolves env req

  drop_request-Evolves : (digest : Text) (req : Request) → Evolves R (drop_request digest req)
  unfolding drop_request
  drop_request-Evolves digest req =
      bind-Evolves from R h _ _ (h.start_timer false) λ _. h.seen digest req

  process_new_request-Evolves :
      (env : Env) (digest : Text) (req : Request) → Evolves R (process_new_request env digest req)
  unfolding process_new_request
  process_new_request-Evolves env digest req r =
      if-Evolves from R h (not (is_primary r)) (drop_request digest req)
        (queue_and_propose env digest req) (drop_request-Evolves digest req)
        (queue_and_propose-Evolves env digest req) r

  process_verified_request-Evolves :
      (env : Env) (req : Request) → Evolves R (process_verified_request env req)
  unfolding process_verified_request
  process_verified_request-Evolves env req r = elim (Option-cases (lookup req.id r.executions)) [
    | inl e ↦ rw (e, process_verified_request) (process_new_request-Evolves env _ req r)
    | inr (result, e) ↦
        rw (e, process_verified_request) (send-Evolves from R h env req.origin result r)
  ]

  pub process_request-Evolves :
      (env : Env) (p : PeerId) (req : Request) → Evolves R (process_request env p req)
  unfolding process_request
  process_request-Evolves env p req =
      bind-Evolves from R h _ _ (or_raise-Evolves from R h _ _)
        λ key. bind-Evolves from R h _ _ h.same λ _. process_verified_request-Evolves env req
