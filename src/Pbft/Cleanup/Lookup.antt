-- ===== src/Pbft/Cleanup/Lookup.antt =====
-- What `cleanupState` keeps, and which requests are outstanding.
use b7s.Common.{
  ℕ, ◌≡◌, refl, inl, inr, ◌↔◌, [], ◌∷◌, none, arith, ltb, select, if◌then◌else◌, In, Option-cases,
  ap, ◌∙◌,
}
use b7s.Common.Text.{Text, text_eq}
use b7s.Common.Map.{Map, lookup, has}
use b7s.Models.{ExecuteResponse}
use b7s.Pbft.Core.{MessageId, message_id_eq, message_id_beq_iff}
use b7s.Pbft.Message.{Request}
use b7s.Pbft.State.{Replica}
use b7s.Pbft.Cleanup.{discard_below, cleanup_state, not_executed, outstanding_requests}

pub lookup-discard_below :
    {V : Type 0} (t : ℕ) (id : MessageId) (m : Map MessageId V)
    → lookup id (discard_below t m) ≡ (if ltb id.view t then none else lookup id m)
unfolding discard_below select lookup
lookup-discard_below t id [] = ground arith
lookup-discard_below t id ((j, v) ∷ m) =
    ground (arith, message_id_beq_iff j id, lookup-discard_below t id m)

-- After the cleanup for a view nothing is pending; a pre-prepare, and the prepares and commits, of an
-- earlier view are gone, and those of that view and of the later ones are as they were; the rest of
-- the state has not changed.
pub cleanup_state-lookup :
    (t : ℕ) (r : Replica) (id : MessageId)
    → let r' = cleanup_state t r in
      (r'.pending ≡ [])
      × (lookup id r'.pre_prepares ≡ (if ltb id.view t then none else lookup id r.pre_prepares))
      × (lookup id r'.prepares ≡ (if ltb id.view t then none else lookup id r.prepares))
      × (lookup id r'.commits ≡ (if ltb id.view t then none else lookup id r.commits))
      × (r' ≡ record r {
        state = record r.state {
          pending = r'.pending;
          pre_prepares = r'.pre_prepares;
          prepares = r'.prepares;
          commits = r'.commits;
        };
      })
unfolding cleanup_state
cleanup_state-lookup t r id = (
  refl,
  lookup-discard_below t id r.pre_prepares,
  lookup-discard_below t id r.prepares,
  lookup-discard_below t id r.commits,
  refl,
)

abbrev Waiting : Map Text ExecuteResponse → Map Text Request → Request → Type 0
Waiting ex m req = (digest : Text) × In (digest, req) m × (lookup req.id ex ≡ none)

abbrev keep_waiting :
    (ex : Map Text ExecuteResponse) (e : Text × Request) (m : Map Text Request) (req : Request)
    → Waiting ex m req
    → Waiting ex (e ∷ m) req
keep_waiting ex e m req (k, i, n) = (k, inr i, n)

waits_or_later :
    (ex : Map Text ExecuteResponse) (d : Text) (q : Request) (m : Map Text Request) (req : Request)
    → lookup q.id ex ≡ none
    → (In req (not_executed ex m) → Waiting ex m req)
    → In req (q ∷ not_executed ex m)
    → Waiting ex ((d, q) ∷ m) req
waits_or_later ex d q m req e later (inl here) =
    (d, inl (ap (λ x. (d, x)) here), ap (λ (x : Request). lookup x.id ex) here ∙ e)
waits_or_later ex d q m req e later (inr i) = keep_waiting ex (d, q) m req (later i)

to_waiting :
    (ex : Map Text ExecuteResponse) (m : Map Text Request) (req : Request)
    → In req (not_executed ex m)
    → Waiting ex m req
unfolding not_executed
to_waiting ex [] req h = absurd h
to_waiting ex ((d, q) ∷ m) req h = elim (Option-cases (lookup q.id ex)) [
  | inr (x, e) ↦ keep_waiting ex (d, q) m req (to_waiting ex m req (rw (e, has) at h))
  | inl e ↦ waits_or_later ex d q m req e (to_waiting ex m req) (rw (e, has) at h)
]

of_waiting :
    (ex : Map Text ExecuteResponse) (m : Map Text Request) (req : Request) (digest : Text)
    → In (digest, req) m
    → lookup req.id ex ≡ none
    → In req (not_executed ex m)
unfolding not_executed
of_waiting ex [] req digest h n = absurd h
of_waiting ex ((d, q) ∷ m) req digest (inl here) n = ground arith
of_waiting ex ((d, q) ∷ m) req digest (inr later) n = elim (Option-cases (lookup q.id ex)) [
  | inr (x, e) ↦ rw (e, has) (of_waiting ex m req digest later n)
  | inl e ↦ rw (e, has) (inr (of_waiting ex m req digest later n))
]

-- A request is outstanding exactly when it is among the requests seen, under some digest, and there is
-- no result under its ID.
outstanding_requests-In :
    (r : Replica) (req : Request)
    → In req (outstanding_requests r)
      ↔ ((digest : Text) × In (digest, req) r.requests × (lookup req.id r.executions ≡ none))
unfolding outstanding_requests
outstanding_requests-In r req = (
  to_waiting r.executions r.requests req,
  λ w. of_waiting r.executions r.requests req w.0 w.1 w.2,
)
