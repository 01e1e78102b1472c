-- ===== src/Pbft/Messaging.antt =====
-- consensus/pbft/messaging.go and the trace context of consensus/pbft/tracing.go. The sends of a
-- broadcast run concurrently in the source; here they are made in the order of the peers.
pub mod Broadcast
use b7s.Common.{
  ℕ, ◌+◌, Bool, true, false, List, [], ◌∷◌, Option, none, some, ◌==◌, nat_eq, if◌then◌else◌,
}
use b7s.Common.Text.{Text, text_eq}
use b7s.Models.{PeerId, ExecuteResponse, TraceInfo}
use b7s.Pbft.Message.{Payload, Signable, message, execute_response}
use b7s.Pbft.State.{Replica, Event, sent}
use b7s.Pbft.Action.{
  Env, Action, Done, ok, err, gets, or_raise, raise, pure, done, modify, ◌>>=◌, ◌>>◌,
  encoding_failed, send_failed, broadcast_failed,
}

abbrev pub log_event : Event → Replica → Replica
log_event e r = record r { history = e ∷ r.history }

abbrev pub is_empty {ℓ} : {A : Type ℓ} → List A → Bool
is_empty [] = true
is_empty (x ∷ xs) = false

unfoldable pub save_trace_context : {M : Type 0} → ⦃s : Signable M⦄ → TraceInfo → M → M
save_trace_context ⦃s⦄ t msg = if is_empty t then msg else s.save_trace_context t msg

-- `send`, which the replica calls only with execution responses.
unfoldable pub send : Env → PeerId → ExecuteResponse → Action Done
send env to msg r =
    let t = env.trace_info r.history in
    let traced : ExecuteResponse = if is_empty t then msg else record msg { trace_info = t } in
    elim (env.marshal (execute_response traced)) [
      | none ↦ (err encoding_failed, r)
      | some payload ↦
          let delivered = env.delivers r.history to payload in
          (
            if delivered then ok tt else err send_failed,
            log_event (sent to (execute_response traced) delivered) r,
          )
    ]

-- Sends to each of the peers but this one, and counts the errors.
unfoldable pub send_to_peers : Env → Payload → Text → List PeerId → Replica → ℕ × Replica
send_to_peers env msg payload [] r = (0, r)
send_to_peers env msg payload (target ∷ targets) r =
    let skip = target == r.id in
    let delivered = env.delivers r.history target payload in
    let (errors, r') =
      send_to_peers env msg payload targets
        (if skip then r else log_event (sent target msg delivered) r) in
    (if skip then errors else if delivered then errors else errors + 1, r')

-- The message comes back as it was sent, with the trace context in it.
unfoldable pub broadcast : {M : Type 0} → ⦃s : Signable M⦄ → Env → M → Action M
unfolding save_trace_context
broadcast ⦃s⦄ env msg r =
    let traced = save_trace_context (env.trace_info r.history) msg in
    elim (env.marshal (message (s.as_message traced))) [
      | none ↦ (err encoding_failed, r)
      | some payload ↦
          let (errors, r') = send_to_peers env (message (s.as_message traced)) payload r.peers r in
          (if errors == 0 then ok traced else err broadcast_failed, r')
    ]
