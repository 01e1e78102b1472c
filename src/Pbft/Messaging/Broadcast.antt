-- ===== src/Pbft/Messaging/Broadcast.antt =====
-- Whom a broadcast reaches, and when it fails.
use b7s.Common.{
  ℕ, ◌+◌, ◌≡◌, refl, List, [], ◌∷◌, Bool, true, false, some, arith, select, not, ◌==◌, nat_eq,
  length, Bool-cases, inl, inr, All, ◌↔◌,
}
use b7s.Common.Text.{Text, text_eq}
use b7s.Models.{PeerId}
use b7s.Pbft.Message.{Signable, Payload, message}
use b7s.Pbft.State.{Replica, Event, sent}
use b7s.Pbft.Action.{Env, ok, err, broadcast_failed}
use b7s.Pbft.Messaging.{log_event, save_trace_context, send_to_peers, broadcast}

-- The peers but this replica.
abbrev pub others : Replica → List PeerId → List PeerId
others r = select (λ p. not (p == r.id))

-- One send to each target, in order, with its outcome.
abbrev pub send_events : Payload → List PeerId → List Bool → List Event → List Event
send_events msg [] flags h = h
send_events msg (t ∷ ts) [] h = h
send_events msg (t ∷ ts) (d ∷ ds) h = send_events msg ts ds (sent t msg d ∷ h)

abbrev pub failures : List Bool → ℕ
failures [] = 0
failures (true ∷ ds) = failures ds
failures (false ∷ ds) = failures ds + 1

abbrev pub IsDelivered : Bool → Type 0
IsDelivered d = d ≡ true

failures_zero : (ds : List Bool) → (failures ds ≡ 0) ↔ All IsDelivered ds
failures_zero [] = (λ h. tt, λ h. refl)
failures_zero (true ∷ ds) = (λ h. (refl, (failures_zero ds).0 h), λ h. (failures_zero ds).1 h.1)
failures_zero (false ∷ ds) = (λ h. absurd (omega arith), λ h. cc)

-- What a run of sends has done.
pub record Sends (msg : Payload) (targets : List PeerId) (r : Replica) (out : ℕ × Replica)
    : Type 0 where
  pub flags : List Bool
  pub each : length flags ≡ length targets
  pub after : out.1 ≡ record r { history = send_events msg targets flags r.history }
  pub errors : out.0 ≡ failures flags

pub send_to_peers-Sends :
    (env : Env) (msg : Payload) (payload : Text) (targets : List PeerId) (r : Replica)
    → Sends msg (others r targets) r (send_to_peers env msg payload targets r)
unfolding send_to_peers select
send_to_peers-Sends env msg payload [] r = record {
  flags = [];
  each = refl;
  after = refl;
  errors = refl;
}
send_to_peers-Sends env msg payload (t ∷ ts) r = elim (Bool-cases (t == r.id)) [
  | inl own ↦
      let rest = send_to_peers-Sends env msg payload ts r in
      record {
        flags = rest.flags;
        each = ground (arith, rest.each);
        after = ground (arith, rest.after);
        errors = ground (arith, rest.errors);
      }
  | inr other ↦
      let d = env.delivers r.history t payload in
      let rest = send_to_peers-Sends env msg payload ts (log_event (sent t msg d) r) in
      record {
        flags = d ∷ rest.flags;
        each = ground (arith, rest.each);
        after = ground (arith, rest.after);
        errors = ground (arith, rest.errors, Bool-cases d);
      }
]

-- A broadcast of a message that can be encoded sends it, with the trace context in it, once to each
-- peer but the sender, and changes nothing else; it succeeds exactly when every send does, and fails
-- with `broadcast_failed` if not.
pub broadcast-Sends :
    {M : Type 0} ⦃s : Signable M⦄ (env : Env) (m : M) (r : Replica) (payload : Text)
    → let traced = save_trace_context (env.trace_info r.history) m in
      let msg = message (s.as_message traced) in
      env.marshal msg ≡ some payload
      → (flags : List Bool) × (length flags ≡ length (others r r.peers))
        × ((broadcast env m r).1
            ≡ record r { history = send_events msg (others r r.peers) flags r.history })
        × (((broadcast env m r).0 ≡ ok traced) ↔ All IsDelivered flags)
        × (((broadcast env m r).0 ≡ err broadcast_failed) ↔ ¬ All IsDelivered flags)
unfolding broadcast
broadcast-Sends ⦃s⦄ env m r payload h =
    let traced = save_trace_context (env.trace_info r.history) m in
    let rest = send_to_peers-Sends env (message (s.as_message traced)) payload r.peers r in
    (
      rest.flags,
      rest.each,
      ground (arith, h, rest.after),
      (
        λ q. (failures_zero rest.flags).0 (ground (arith, h, rest.errors)),
        λ a. ground (arith, h, rest.errors, (failures_zero rest.flags).1 a),
      ),
      (
        λ q a. ground (arith, h, rest.errors, (failures_zero rest.flags).1 a),
        λ n. ground (
          arith,
          h,
          rest.errors,
          λ (z : failures rest.flags ≡ 0). n ((failures_zero rest.flags).0 z),
        ),
      ),
    )
