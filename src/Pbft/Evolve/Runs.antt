-- ===== src/Pbft/Evolve/Runs.antt =====
-- The inputs of a replica one after another: messages, the node's own requests, and the timer. The
-- outside may answer differently at each.
use b7s.Common.{
  ℕ, true, List, [], ◌∷◌, ◌≡◌, refl, ◌⊎◌, inl, inr, In, Bool-cases, ◌==◌, eq_of_beq, sym,
}
use b7s.Common.Text.{Text, text_eq}
use b7s.Models.{PeerId, ExecuteRequest}
use b7s.Pbft.Message.{Message}
use b7s.Pbft.State.{Replica}
use b7s.Pbft.Action.{Env}
use b7s.Pbft.Process.{is_known, handle_stream, process_message, execute_from_node, timer_fired}
use b7s.Pbft.Evolve.{HoldsHandled}
use b7s.Pbft.Evolve.Requests.{process_request-Evolves}
use b7s.Pbft.Evolve.Views.{process_message-Evolves}

pub data Input : Type 0 where
  received : PeerId → Message → Input
  requested : PeerId → Text → ℕ → ExecuteRequest → Input
  timed_out : ℕ → Input

unfoldable pub step : Env → Input → Replica → Replica
step env (received from m) r = handle_stream env from m r
step env (requested client id timestamp req) r = (execute_from_node env client id timestamp req r).1
step env (timed_out view) r = timer_fired env view r

unfoldable pub run : List (Env × Input) → Replica → Replica
run [] r = r
run ((env, input) ∷ rest) r = run rest (step env input r)

is_known-In : (p : PeerId) (ps : List PeerId) → is_known p ps ≡ true → In p ps
is_known-In p [] h = cc
is_known-In p (q ∷ ps) h = elim (Bool-cases (q == p)) [
  | inl e ↦ inl (sym (eq_of_beq q p e))
  | inr e ↦ inr (is_known-In p ps (rw e at h))
]

-- One input, for a relation that may need the sender to be a peer or the replica itself.
pub step-Evolves :
    (R : PeerId → Replica → Replica → Type 0) (env : Env) (input : Input) (r : Replica)
    → ((from : PeerId) → HoldsHandled from (R from))
    → (r' : Replica) × (from : PeerId) × (r' ≡ step env input r)
      × (In from r.peers ⊎ (from ≡ r.id))
      × R from r r'
unfolding step handle_stream execute_from_node timer_fired
step-Evolves R env (requested client id timestamp req) r h =
    (_, r.id, refl, inr refl, process_request-Evolves r.id (R r.id) (h r.id).normal env client _ r)
step-Evolves R env (timed_out view) r h = (_, r.id, refl, inr refl, (h r.id).begin env view r)
step-Evolves R env (received from m) r h = elim (Bool-cases (is_known from r.peers)) [
  | inl e ↦ (
    (process_message env from m r).1,
    from,
    rw e,
    inl (is_known-In from r.peers e),
    process_message-Evolves from (R from) (h from) env m r,
  )
  | inr e ↦ (r, r.id, rw e, inr refl, (h r.id).normal.same r)
]

-- Every run, for a relation that does not depend on the sender.
pub run-Evolves :
    (R : Replica → Replica → Type 0) (inputs : List (Env × Input)) (r : Replica)
    → ((from : PeerId) → HoldsHandled from R)
    → R r (run inputs r)
unfolding run
run-Evolves R [] r h = (h r.id).normal.same r
run-Evolves R ((env, input) ∷ rest) r h =
    let (r', from, e, sender, k) = step-Evolves (λ _. R) env input r h in
    (h r.id).normal.join r (step env input r) _ (rw e at k)
      (run-Evolves R rest (step env input r) h)
