-- ===== src/Node/Queue/Kept.antt =====
-- No response to a roll call is lost or blocks, up to the size of the buffer.
use b7s.Common.{
  ◌+◌, ◌≤◌, true, false, List, [], ◌∷◌, ◌++◌, Option, none, some, length, ltb, if◌then◌else◌, ◌≡◌,
  refl, sym, ap, ◌∙◌, arith, ◌==◌, Option-cases, Bool-cases, inl, inr, eq_of_beq, length-append,
  beq_refl,
}
use mathlib.Core.List.{append-nil, append_assoc}
use b7s.Common.Text.{Text, text_eq}
use b7s.Common.Map.{lookup, insert, lookup-insert}
use b7s.Node.Queue.{RollCallResponse, RollCallQueue, add}

-- The responses that arrive, each with the ID of its request.
abbrev pub Arrivals : Type 0
Arrivals = List (Text × RollCallResponse)

unfoldable pub add_all : Arrivals → RollCallQueue → Option RollCallQueue
add_all [] q = some q
add_all ((id, res) ∷ arrivals) q = elim (add id res q) [
  | none ↦ none
  | some after ↦ add_all arrivals after
]

-- Those for one request, in order.
abbrev pub for_request : Text → Arrivals → List RollCallResponse
for_request req_id [] = []
for_request req_id ((id, res) ∷ arrivals) =
    let rest = for_request req_id arrivals in if id == req_id then res ∷ rest else rest

-- What a channel holds after more has come, if there is a channel.
abbrev pub extended :
    Option (List RollCallResponse) → List RollCallResponse → Option (List RollCallResponse)
extended none more = none
extended (some channel) more = some (channel ++ more)

abbrev pub HasRoom : Arrivals → RollCallQueue → Type 0
HasRoom arrivals q =
    (req_id : Text) (channel : List RollCallResponse)
    → lookup req_id q.channels ≡ some channel
    → length channel + length (for_request req_id arrivals) ≤ q.size

extended-none : (o : Option (List RollCallResponse)) → extended o [] ≡ o
extended-none none = refl
extended-none (some channel) = ap some (append-nil channel)

HasRoom-rest :
    (id : Text) (res : RollCallResponse) (arrivals : Arrivals) (q : RollCallQueue)
    → HasRoom ((id, res) ∷ arrivals) q
    → HasRoom arrivals q
HasRoom-rest id res arrivals q room req_id channel h = ground (arith, room req_id channel h)

-- The queue after a response that fits into its channel.
abbrev with_response :
    Text → RollCallResponse → List RollCallResponse → RollCallQueue → RollCallQueue
with_response id res channel q = record q { channels = insert id (channel ++ res ∷ []) q.channels }

HasRoom-insert :
    (id : Text) (res : RollCallResponse) (arrivals : Arrivals) (q : RollCallQueue)
    (channel : List RollCallResponse)
    → lookup id q.channels ≡ some channel
    → HasRoom ((id, res) ∷ arrivals) q
    → HasRoom arrivals (with_response id res channel q)
HasRoom-insert id res arrivals q channel e room req_id other h = elim (Bool-cases (id == req_id)) [
  | inl y ↦ ground (
    arith,
    lookup-insert id req_id (channel ++ res ∷ []) q.channels,
    length-append channel (res ∷ []),
    room req_id channel (rw (← eq_of_beq id req_id y) e),
  )
  | inr n ↦
      ground (arith, lookup-insert id req_id (channel ++ res ∷ []) q.channels, room req_id other)
]

add-none :
    (id : Text) (res : RollCallResponse) (q : RollCallQueue)
    → lookup id q.channels ≡ none
    → add id res q ≡ some q
unfolding add
add-none id res q n = rw (add, n) refl

add-some :
    (id : Text) (res : RollCallResponse) (q : RollCallQueue) (channel : List RollCallResponse)
    → lookup id q.channels ≡ some channel
    → ltb (length channel) q.size ≡ true
    → add id res q ≡ some (with_response id res channel q)
unfolding add
add-some id res q channel e l = rw (add, e, l) refl

-- A response counts for its own request only.
extended-cons :
    (id : Text) (res : RollCallResponse) (arrivals : Arrivals) (req_id : Text)
    (o old : Option (List RollCallResponse))
    → ((id == req_id) ≡ true → o ≡ extended old (res ∷ []))
    → ((id == req_id) ≡ false → o ≡ old)
    → extended o (for_request req_id arrivals)
      ≡ extended old (for_request req_id ((id, res) ∷ arrivals))
extended-cons id res arrivals req_id o none own other = elim (Bool-cases (id == req_id)) [
  | inl y ↦ rw (own y) refl
  | inr n ↦ rw (other n) refl
]
extended-cons id res arrivals req_id o (some channel) own other = elim (Bool-cases (id == req_id)) [
  | inl y ↦ rw (y, own y) (ap some (append_assoc channel (res ∷ []) (for_request req_id arrivals)))
  | inr n ↦ rw (n, other n) refl
]

-- As long as no channel gets more responses than its buffer has room for: no send blocks, and each
-- channel then holds what it held and after that the responses to its own request in the order of
-- arrival. Responses to a request without a channel are dropped.
pub add_all-lookup :
    (arrivals : Arrivals) (q : RollCallQueue)
    → HasRoom arrivals q
    → (after : RollCallQueue) × (add_all arrivals q ≡ some after)
      × ((req_id : Text)
          → lookup req_id after.channels
            ≡ extended (lookup req_id q.channels) (for_request req_id arrivals))
unfolding add_all
add_all-lookup [] q room = (q, refl, λ req_id. sym (extended-none (lookup req_id q.channels)))
add_all-lookup ((id, res) ∷ arrivals) q room = elim (Option-cases (lookup id q.channels)) [
  | inl n ↦
      let (after, r, iff) = add_all-lookup arrivals q (HasRoom-rest id res arrivals q room) in
      (
        after,
        rw (add_all, add-none id res q n) r,
        λ req_id.
            iff req_id
            ∙ extended-cons id res arrivals req_id _ _ (λ y. rw (← eq_of_beq id req_id y, n) refl)
                (λ f. refl),
      )
  | inr (channel, e) ↦
      let (after, r, iff) =
        add_all-lookup arrivals (with_response id res channel q)
          (HasRoom-insert id res arrivals q channel e room) in
      (
        after,
        rw (add_all, add-some id res q channel e (ground (arith, room id channel e, beq_refl id)))
            r,
        λ req_id.
            iff req_id
            ∙ extended-cons id res arrivals req_id _ _
                (λ y. rw (lookup-insert, y, ← eq_of_beq id req_id y, e) refl)
                (λ f. rw (lookup-insert, f) refl),
      )
]
