-- ===== src/Node/RollCall/Chosen.antt =====
-- Which peers a roll call chooses.
use b7s.Common.{
  ℕ, suc, zero, ◌≡◌, ◌+◌, Bool, true, false, List, [], ◌∷◌, ◌++◌, none, some, leb, ltb, length,
  length-append, ◌==◌, nat_eq, arith, if◌then◌else◌, ◌&&◌, Bool-cases, inl, inr, refl, ap, ◌∙◌,
}
use mathlib.Core.List.{append_assoc, append-nil}
use b7s.Common.Text.{Text, text_eq}
use b7s.Models.{PeerId}
use b7s.Node.RollCall.{
  RollCallEvent, RollCallOutcome, timed_out, replied, waiting, roll_call_timeout, reported,
  too_few_for_pbft, on_timeout, is_enough, roll_call_loop, execute_roll_call, check_pbft,
}

-- The senders of the replies that count, up to the end of the time.
unfoldable pub eligible : Text → List RollCallEvent → List PeerId
eligible function_id [] = []
eligible function_id (timed_out ∷ rest) = []
eligible function_id (replied from function connected ∷ rest) =
    let later = eligible function_id rest in
    if (function == function_id) && connected then from ∷ later else later

unfoldable pub times_out : List RollCallEvent → Bool
times_out [] = false
times_out (timed_out ∷ rest) = true
times_out (replied from function connected ∷ rest) = times_out rest

abbrev pub take : ℕ → List PeerId → List PeerId
take zero peers = []
take (suc n) [] = []
take (suc n) (p ∷ peers) = p ∷ take n peers

-- With the peers that have reported before.
abbrev expected_outcome : Text → ℕ → List PeerId → List RollCallEvent → RollCallOutcome
expected_outcome function_id missing before events =
    let good = eligible function_id events in
    if leb missing (length good)
    then reported (before ++ take missing good)
    else if times_out events
    then roll_call_timeout
    else waiting (before ++ good)

loop_taken :
    (function_id : Text) (node_count : ℕ) (before : List PeerId) (missing : ℕ) (from : PeerId)
    (rest : List RollCallEvent)
    → node_count ≡ length before + suc missing
    → ((n : ℕ)
        → missing ≡ suc n
        → roll_call_loop function_id (some node_count) (before ++ (from ∷ [])) rest
          ≡ expected_outcome function_id missing (before ++ (from ∷ [])) rest)
    → (if is_enough (some node_count) (before ++ (from ∷ []))
        then reported (before ++ (from ∷ []))
        else roll_call_loop function_id (some node_count) (before ++ (from ∷ [])) rest)
      ≡ (let good = eligible function_id rest in
          if leb (suc missing) (suc (length good))
          then reported (before ++ (from ∷ take missing good))
          else if times_out rest
          then roll_call_timeout
          else waiting (before ++ (from ∷ good)))
loop_taken function_id node_count before zero from rest h k =
    ground (arith, h, length-append before (from ∷ []))
loop_taken function_id node_count before (suc n) from rest h k =
    let good = eligible function_id rest in
    ground (
      arith,
      h,
      length-append before (from ∷ []),
      k n refl,
      append_assoc before (from ∷ []) (take (suc n) good),
      append_assoc before (from ∷ []) good,
    )

loop_counted :
    (function_id : Text) (node_count : ℕ) (before : List PeerId) (missing : ℕ)
    (events : List RollCallEvent)
    → node_count ≡ length before + suc missing
    → roll_call_loop function_id (some node_count) before events
      ≡ expected_outcome function_id (suc missing) before events
unfolding roll_call_loop eligible times_out on_timeout
loop_counted function_id node_count before missing [] h = ground (arith, append-nil before)
loop_counted function_id node_count before missing (timed_out ∷ rest) h = ground arith
loop_counted function_id node_count before missing (replied from function connected ∷ rest) h =
    let skip = loop_counted function_id node_count before missing rest h in
    elim (Bool-cases (function == function_id)) [
      | inr e ↦ rw e skip
      | inl e ↦ elim (Bool-cases connected) [
        | inr c ↦ rw (e, c) skip
        | inl c ↦
            rw (e, c)
              (loop_taken function_id node_count before missing from rest h λ n q. rw q (
                loop_counted function_id node_count (before ++ (from ∷ [])) n rest
                  (ground (arith, h, q, length-append before (from ∷ [])))))
      ]
    ]

-- Without a count.
abbrev expected_any : Text → List PeerId → List RollCallEvent → RollCallOutcome
expected_any function_id before events =
    let all = before ++ eligible function_id events in
    if times_out events
    then if leb 1 (length all) then reported all else roll_call_timeout
    else waiting all

loop_any :
    (function_id : Text) (before : List PeerId) (events : List RollCallEvent)
    → roll_call_loop function_id none before events ≡ expected_any function_id before events
unfolding roll_call_loop eligible times_out on_timeout
loop_any function_id before [] = ground (arith, append-nil before)
loop_any function_id before (timed_out ∷ rest) = ground (arith, append-nil before)
loop_any function_id before (replied from function connected ∷ rest) =
    elim (Bool-cases (function == function_id)) [
      | inr e ↦ rw e (loop_any function_id before rest)
      | inl e ↦ elim (Bool-cases connected) [
        | inr c ↦ rw (e, c) (loop_any function_id before rest)
        | inl c ↦
            let good = eligible function_id rest in
            rw (e, c)
              (ground (
                arith,
                loop_any function_id (before ++ (from ∷ [])) rest,
                append_assoc before (from ∷ []) good,
              ))
      ]
    ]

length-take :
    (n : ℕ) (peers : List PeerId) → leb n (length peers) ≡ true → length (take n peers) ≡ n
length-take zero peers h = refl
length-take (suc n) [] h = ground arith
length-take (suc n) (p ∷ peers) h = ap suc (length-take n peers (ground arith))

-- The peers that are chosen; PBFT refuses fewer than four.
abbrev pub chosen : Bool → List PeerId → RollCallOutcome
chosen pbft peers =
    if pbft && ltb (length peers) 4 then too_few_for_pbft (length peers) else reported peers

-- The first so many.
abbrev pub counted : Bool → Text → ℕ → List RollCallEvent → RollCallOutcome
counted pbft function_id node_count events =
    let good = eligible function_id events in
    if leb node_count (length good)
    then if pbft && ltb node_count 4
      then too_few_for_pbft node_count
      else reported (take node_count good)
    else if times_out events
    then roll_call_timeout
    else waiting good

-- All of the time.
abbrev pub uncounted : Bool → Text → List RollCallEvent → RollCallOutcome
uncounted pbft function_id events =
    let good = eligible function_id events in
    if times_out events
    then if leb 1 (length good) then chosen pbft good else roll_call_timeout
    else waiting good

check_pbft-counted :
    (pbft : Bool) (function_id : Text) (n : ℕ) (events : List RollCallEvent)
    → check_pbft pbft (expected_outcome function_id n [] events) ≡ counted pbft function_id n events
check_pbft-counted pbft function_id n events =
    ground (arith, length-take n (eligible function_id events))

check_pbft-uncounted :
    (pbft : Bool) (function_id : Text) (events : List RollCallEvent)
    → check_pbft pbft (expected_any function_id [] events) ≡ uncounted pbft function_id events
check_pbft-uncounted pbft function_id events = ground arith

-- With a node count, 1 or more, a roll call chooses the senders of the first so many replies from
-- connected peers for the function, if they come in time; without a count, all those senders of the
-- time, if there is one. A reply counts each time that it comes. For PBFT fewer than four are then
-- refused, with their number.
pub execute_roll_call_chosen :
    (pbft : Bool) (function_id : Text) (more : ℕ) (events : List RollCallEvent)
    → (execute_roll_call pbft function_id (some (suc more)) events
        ≡ counted pbft function_id (suc more) events)
      × (execute_roll_call pbft function_id none events ≡ uncounted pbft function_id events)
unfolding execute_roll_call
execute_roll_call_chosen pbft function_id more events = (
  ap (check_pbft pbft) (loop_counted function_id (suc more) [] more events (ground arith))
      ∙ check_pbft-counted pbft function_id (suc more) events,
  ap (check_pbft pbft) (loop_any function_id [] events)
      ∙ check_pbft-uncounted pbft function_id events,
)
