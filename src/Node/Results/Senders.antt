-- ===== src/Node/Results/Senders.antt =====
-- The equal results that `gatherExecutionResultsPBFT` has under a key, and who sent them.
use b7s.Common.{
  ℕ, true, List, [], ◌∷◌, ◌++◌, Option, none, some, ◌≡◌, ◌⊎◌, ◌≤◌, refl, sym, arith, nat_eq, inl,
  inr, if◌then◌else◌, length, length-append, ◌==◌, Bool-cases, Option-cases, eq_of_beq, In,
}
use b7s.Common.Text.{text_eq, text_beq_iff}
use b7s.Common.Map.{lookup, lookup-insert}
use b7s.Common.Map.Count.{Distinct}
use b7s.Models.{PeerId, NodeResult}
use b7s.Node.Results.{
  ResultKey, key_eq, key_beq_iff, peer_result_map_key, AggregatedResult, metadata_of, first_result,
  another_result, add_to, account_result, account_all,
}

-- The peers whose result has a key, the first one first.
unfoldable pub senders : ResultKey → List (PeerId × NodeResult) → List PeerId
senders key [] = []
senders key ((sender, er) ∷ earlier) =
    let rest = senders key earlier in
    if peer_result_map_key er == key then rest ++ (sender ∷ []) else rest

abbrev pub joined : PeerId → NodeResult → Option AggregatedResult → AggregatedResult
joined sender er none = first_result sender er
joined sender er (some old) = another_result sender er old

-- What stands under a key.
unfoldable pub aggregated : ResultKey → List (PeerId × NodeResult) → Option AggregatedResult
aggregated key [] = none
aggregated key ((sender, er) ∷ earlier) =
    let rest = aggregated key earlier in
    if peer_result_map_key er == key then some (joined sender er rest) else rest

pub lookup-account_all :
    (count : ℕ) (key : ResultKey) (l : List (PeerId × NodeResult))
    → lookup key (account_all count l).results ≡ aggregated key l
unfolding account_all account_result add_to aggregated lookup
lookup-account_all count key [] = refl
lookup-account_all count key ((sender, er) ∷ l) =
    let k = peer_result_map_key er in
    let g = account_all count l in
    elim (Option-cases (lookup k g.results)) [
      | inl e ↦ ground (
        arith,
        lookup-account_all count key l,
        lookup-insert k key (first_result sender er) g.results,
        key_beq_iff k key,
      )
      | inr (old, e) ↦ ground (
        arith,
        lookup-account_all count key l,
        lookup-insert k key (another_result sender er old) g.results,
        key_beq_iff k key,
      )
    ]

abbrev pub peers_of : Option AggregatedResult → List PeerId
peers_of none = []
peers_of (some a) = a.peers

pub aggregated_peers :
    (key : ResultKey) (l : List (PeerId × NodeResult)) → peers_of (aggregated key l) ≡ senders key l
unfolding aggregated senders
aggregated_peers key [] = refl
aggregated_peers key ((sender, er) ∷ l) = elim (Option-cases (aggregated key l)) [
  | inl e ↦ ground (arith, aggregated_peers key l)
  | inr (old, e) ↦ ground (arith, aggregated_peers key l)
]

pub aggregated_output :
    (key : ResultKey) (l : List (PeerId × NodeResult)) (a : AggregatedResult)
    → aggregated key l ≡ some a
    → a.result.result ≡ key.output
unfolding aggregated
aggregated_output key [] a h = cc
aggregated_output key ((sender, er) ∷ l) a h = elim (Option-cases (aggregated key l)) [
  | inl e ↦ ground (arith, key_beq_iff (peer_result_map_key er) key, aggregated_output key l a)
  | inr (old, e) ↦ ground (
    arith,
    key_beq_iff (peer_result_map_key er) key,
    aggregated_output key l old e,
    aggregated_output key l a,
  )
]

In-last : (p q : PeerId) (ps : List PeerId) → In p (ps ++ (q ∷ [])) → In p ps ⊎ (p ≡ q)
In-last p q [] (inl e) = inr e
In-last p q [] (inr m) = absurd m
In-last p q (x ∷ ps) (inl e) = inl (inl e)
In-last p q (x ∷ ps) (inr m) = elim (In-last p q ps m) [ inl i ↦ inl (inr i) | inr e ↦ inr e ]

last-In : (p q : PeerId) (ps : List PeerId) → In p ps ⊎ (p ≡ q) → In p (ps ++ (q ∷ []))
last-In p q [] (inl m) = absurd m
last-In p q [] (inr e) = inl e
last-In p q (x ∷ ps) (inl (inl e)) = inl e
last-In p q (x ∷ ps) (inl (inr m)) = inr (last-In p q ps (inl m))
last-In p q (x ∷ ps) (inr e) = inr (last-In p q ps (inr e))

abbrev pub Sent : ResultKey → PeerId → List (PeerId × NodeResult) → Type 0
Sent key p l = (er : NodeResult) × (lookup p l ≡ some er) × (peer_result_map_key er ≡ key)

Sent-later :
    (key : ResultKey) (p sender : PeerId) (first : NodeResult) (l : List (PeerId × NodeResult))
    → lookup sender l ≡ none
    → Sent key p l
    → Sent key p ((sender, first) ∷ l)
unfolding lookup
Sent-later key p sender first l n (er, a, b) = (er, ground (arith, text_beq_iff sender p, n, a), b)

-- The senders under a key are those whose result has it, when each sends one.
pub senders-Sent :
    (key : ResultKey) (l : List (PeerId × NodeResult)) (p : PeerId)
    → Distinct l
    → In p (senders key l)
    → Sent key p l
unfolding senders lookup
senders-Sent key [] p d m = absurd m
senders-Sent key ((sender, er) ∷ l) p d m = elim (Bool-cases (peer_result_map_key er == key)) [
  | inr e ↦ Sent-later key p sender er l d.0 (senders-Sent key l p d.1 (rw e at m))
  | inl e ↦ elim (In-last p sender (senders key l) (rw e at m)) [
    | inl i ↦ Sent-later key p sender er l d.0 (senders-Sent key l p d.1 i)
    | inr q ↦
        (er, ground (arith, q, text_beq_iff sender p), eq_of_beq (peer_result_map_key er) key e)
  ]
]

pub lookup-senders :
    (l : List (PeerId × NodeResult)) (p : PeerId) (er : NodeResult)
    → lookup p l ≡ some er
    → In p (senders (peer_result_map_key er) l)
unfolding senders lookup
lookup-senders [] p er h = cc
lookup-senders ((sender, first) ∷ l) p er h = elim (Bool-cases (sender == p)) [
  | inl e ↦
      let q : first ≡ er = ground (arith, h, e) in
      let k : (peer_result_map_key first == peer_result_map_key er) ≡ true =
        ground (arith, q, key_beq_iff (peer_result_map_key first) (peer_result_map_key er)) in
      rw k (last-In p sender _ (inr (sym (eq_of_beq sender p e))))
  | inr e ↦ elim (Bool-cases (peer_result_map_key first == peer_result_map_key er)) [
    | inl k ↦ rw k (last-In p sender _ (inl (lookup-senders l p er (rw e at h))))
    | inr k ↦ rw k (lookup-senders l p er (rw e at h))
  ]
]

pub aggregated_more :
    (key : ResultKey) (l : List (PeerId × NodeResult)) (a : AggregatedResult)
    → aggregated key l ≡ some a
    → 1 ≤ length (senders key l)
unfolding aggregated senders
aggregated_more key [] a h = cc
aggregated_more key ((sender, er) ∷ l) a h =
    ground (arith, length-append (senders key l) (sender ∷ []), aggregated_more key l a)

pub aggregated_known :
    (l : List (PeerId × NodeResult)) (p : PeerId) (er : NodeResult)
    → lookup p l ≡ some er
    → (a : AggregatedResult) × (aggregated (peer_result_map_key er) l ≡ some a)
aggregated_known l p er h = elim (Option-cases (aggregated (peer_result_map_key er) l)) [
  | inr w ↦ w
  | inl e ↦
      absurd (none_In (aggregated_peers (peer_result_map_key er) l) e (lookup-senders l p er h))
]
  where
    none_In :
        {ps : List PeerId} {o : Option AggregatedResult} → peers_of o ≡ ps → o ≡ none → In p ps → ⊥
    none_In a b m = rw (← a, b) at m

pub aggregated_metadata :
    (l : List (PeerId × NodeResult)) (p : PeerId) (er : NodeResult) (a : AggregatedResult)
    → lookup p l ≡ some er
    → aggregated (peer_result_map_key er) l ≡ some a
    → metadata_of p a.metadata ≡ er.metadata
unfolding aggregated lookup
aggregated_metadata [] p er a h g = cc
aggregated_metadata ((sender, first) ∷ l) p er a h g = elim (Bool-cases (sender == p)) [
  | inl e ↦ elim (Option-cases (aggregated (peer_result_map_key er) l)) [
    | inl f ↦ ground (arith, h, g, key_beq_iff (peer_result_map_key first) (peer_result_map_key er))
    | inr (old, f) ↦ ground (
      arith,
      h,
      g,
      key_beq_iff (peer_result_map_key first) (peer_result_map_key er),
      lookup-insert sender p first.metadata old.metadata,
      text_beq_iff sender p,
    )
  ]
  | inr e ↦
      let (old, f) = aggregated_known l p er (rw e at h) in
      ground (
        arith,
        g,
        aggregated_metadata l p er old (rw e at h) f,
        lookup-insert sender p first.metadata old.metadata,
        text_beq_iff sender p,
      )
]
