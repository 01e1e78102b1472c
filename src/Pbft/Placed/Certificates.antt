-- ===== src/Pbft/Placed/Certificates.antt =====
-- The certificates of a replica's own view changes (`getPrepareSet` of consensus/pbft/view_change.go).
use b7s.Common.{
  ◌≡◌, ◌≤◌, ◌⊎◌, Bool, true, List, [], ◌∷◌, ◌++◌, In, inl, inr, length, arith, Bool-cases,
  Option-cases, some, refl,
}
use b7s.Common.Text.{Text, text_eq, text_beq_iff}
use b7s.Common.Map.{Map, lookup}
use b7s.Common.Map.Values.{IsReceipts, In-lookup, empty-Values}
use b7s.Models.{PeerId}
use b7s.Pbft.Core.{MessageId, message_id_eq, get_message_id, prepare_quorum}
use b7s.Pbft.Message.{Request, PrePrepare, Prepare, PrepareInfo}
use b7s.Pbft.Config.{Setting}
use b7s.Pbft.State.{Replica, PrepareReceipts}
use b7s.Pbft.Action.{ok}
use b7s.Pbft.Conditions.{pre_prepared, prepared}
use b7s.Pbft.ViewChange.{prepare_info, prepared_requests, prepare_set_from, get_prepare_set}
use b7s.Pbft.Process.{new_replica}
use b7s.Pbft.Reached.{Reached, Reached-Genuine}
use b7s.Pbft.Receipts.Genuine.{PreparesAt}
use b7s.Pbft.Placed.{StandsAt, Placed, run-Placed}

In-append : {A : Type 0} (a : A) (xs ys : List A) → In a (xs ++ ys) → In a xs ⊎ In a ys
In-append a [] ys i = inr i
In-append a (x ∷ xs) ys (inl e) = inl (inl e)
In-append a (x ∷ xs) ys (inr i) = elim (In-append a xs ys i) [ inl j ↦ inl (inr j) | inr j ↦ inr j ]

abbrev Listed : Replica → MessageId → PrepareReceipts → PrepareInfo → Type 0
Listed r id rs info =
    (digest : Text) × (prepared r id.view id.sequence digest ≡ true)
    × (info ≡ prepare_info r id rs digest)

prepared_requests-Listed :
    (r : Replica) (id : MessageId) (rs : PrepareReceipts) (requests : Map Text Request)
    (info : PrepareInfo)
    → In info (prepared_requests r id rs requests)
    → Listed r id rs info
unfolding prepared_requests
prepared_requests-Listed r id rs [] info i = absurd i
prepared_requests-Listed r id rs ((digest, request) ∷ rest) info i =
    elim (Bool-cases (prepared r id.view id.sequence digest)) [
      | inr e ↦ prepared_requests-Listed r id rs rest info (rw e at i)
      | inl e ↦ elim (rw e at i) [
        | inl q ↦ (digest, e, q)
        | inr j ↦ prepared_requests-Listed r id rs rest info j
      ]
    ]

prepare_set_from-Listed :
    (r : Replica) (m : Map MessageId PrepareReceipts) (info : PrepareInfo)
    → In info (prepare_set_from r m)
    → (e : MessageId × PrepareReceipts) × In e m × Listed r e.0 e.1 info
unfolding prepare_set_from
prepare_set_from-Listed r [] info i = absurd i
prepare_set_from-Listed r ((id, rs) ∷ rest) info i =
    elim (In-append info (prepared_requests r id rs r.requests) (prepare_set_from r rest) i) [
      | inl j ↦ ((id, rs), inl refl, prepared_requests-Listed r id rs r.requests info j)
      | inr j ↦ let (e, k, l) = prepare_set_from-Listed r rest info j in (e, inr k, l)
    ]

-- What a certificate must hold, but for the signatures.
abbrev pub IsSound : Replica → PrepareInfo → Type 0
IsSound r info =
    (get_message_id info.pre_prepare.view info.pre_prepare.sequence_number
      ≡ get_message_id info.view info.sequence_number)
    × (info.pre_prepare.digest ≡ info.digest)
    × (prepare_quorum r.core ≤ length info.prepares)
    × IsReceipts r.peers
        (λ (m : Prepare).
          get_message_id m.view m.sequence_number ≡ get_message_id info.view info.sequence_number)
        info.prepares

prepared_parts :
    (r : Replica) (id : MessageId) (rs : PrepareReceipts) (digest : Text)
    → prepared r id.view id.sequence digest ≡ true
    → lookup id r.prepares ≡ some rs
    → (pp : PrePrepare) × (lookup id r.pre_prepares ≡ some pp)
      × (pp.digest ≡ digest)
      × (prepare_quorum r.core ≤ length rs.m)
unfolding prepared pre_prepared get_message_id
prepared_parts r id rs digest h e = elim (Option-cases (lookup id r.pre_prepares)) [
  | inl f ↦ absurd (ground (arith, h, f))
  | inr (pp, f) ↦
      (pp, f, ground (arith, h, f, text_beq_iff pp.digest digest), ground (arith, h, f, e))
]

info-IsSound :
    (r : Replica) (id : MessageId) (rs : PrepareReceipts) (pp : PrePrepare) (digest : Text)
    → lookup id r.pre_prepares ≡ some pp
    → StandsAt id pp
    → pp.digest ≡ digest
    → prepare_quorum r.core ≤ length rs.m
    → PreparesAt r.peers id rs
    → IsSound r (prepare_info r id rs digest)
unfolding get_message_id
info-IsSound r id rs pp digest a st b c receipts = rw a (st, b, c, receipts)

new_replica-Placed :
    (own : PeerId) (byzantine : Bool) (peers : List PeerId) (settings : List Setting) (r : Replica)
    → new_replica own byzantine peers settings ≡ ok r
    → (r.pre_prepares ≡ []) × (r.prepares ≡ [])
unfolding new_replica
new_replica-Placed own byzantine peers settings r e = ground arith

Reached-Placed : (peers : List PeerId) (r : Replica) → Reached peers r → Placed r
Reached-Placed peers r (own, byzantine, settings, start, inputs, i, e, at_end) =
    let (p, q) = new_replica-Placed own byzantine peers settings start e in
    rw at_end (run-Placed inputs start (rw p (empty-Values StandsAt), rw q tt))

-- In a replica of the cluster, after any run from its start, each certificate of its own view changes
-- has a pre-prepare for its view, sequence number and digest, and at least 2f prepares, from
-- different peers, for its view and sequence number.
pub get_prepare_set-IsSound :
    (peers : List PeerId) (r : Replica) (info : PrepareInfo)
    → Reached peers r
    → In info (get_prepare_set r)
    → IsSound r info
unfolding get_prepare_set
get_prepare_set-IsSound peers r info h i =
    let (ps, f, big, genuine) = Reached-Genuine peers r h in
    let (stands, distinct) = Reached-Placed peers r h in
    let ((id, rs), j, (digest, e, q)) = prepare_set_from-Listed r r.prepares info i in
    let known = In-lookup id rs r.prepares distinct j in
    let (pp, a, b, c) = prepared_parts r id rs digest e known in
    rw q (info-IsSound r id rs pp digest a (stands id pp a) b c (genuine.1 id rs known))
