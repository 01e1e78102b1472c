-- ===== src/Node/RollCall.antt =====
-- The choice of the peers for an execution: the loop of `executeRollCall` (node/roll_call.go) over what
-- it hears. A reply carries whether the host is connected to its sender at that moment.
pub mod Chosen
use b7s.Common.{
  ℕ, Bool, false, List, [], ◌∷◌, ◌++◌, Option, none, some, leb, ltb, not, length, ◌==◌, nat_eq,
  if◌then◌else◌, ◌&&◌,
}
use b7s.Common.Text.{Text, text_eq}
use b7s.Models.{PeerId}
use b7s.Pbft.Config.{minimum_replica_count}

pub data RollCallEvent : Type 0 where
  timed_out : RollCallEvent
  -- The sender, its function, and whether there is a connection.
  replied : PeerId → Text → Bool → RollCallEvent

pub data RollCallOutcome : Type 0 where
  -- The peers that have reported so far, and the loop still waits.
  waiting : List PeerId → RollCallOutcome
  roll_call_timeout : RollCallOutcome
  reported : List PeerId → RollCallOutcome
  too_few_for_pbft : ℕ → RollCallOutcome

-- No node count is -1, for which any number of peers will do at the end of the time.
unfoldable pub on_timeout : Option ℕ → List PeerId → RollCallOutcome
on_timeout none peers = if leb 1 (length peers) then reported peers else roll_call_timeout
on_timeout (some node_count) peers = roll_call_timeout

abbrev pub is_enough : Option ℕ → List PeerId → Bool
is_enough none peers = false
is_enough (some node_count) peers = leb node_count (length peers)

unfoldable pub roll_call_loop : Text → Option ℕ → List PeerId → List RollCallEvent → RollCallOutcome
roll_call_loop function_id node_count peers [] = waiting peers
roll_call_loop function_id node_count peers (timed_out ∷ rest) = on_timeout node_count peers
roll_call_loop function_id node_count peers (replied from function connected ∷ rest) =
    let skipped = roll_call_loop function_id node_count peers rest in
    let taken = roll_call_loop function_id node_count (peers ++ (from ∷ [])) rest in
    if not (function == function_id)
    then skipped
    else if not connected
    then skipped
    else if is_enough node_count (peers ++ (from ∷ []))
    then reported (peers ++ (from ∷ []))
    else taken

abbrev pub check_pbft : Bool → RollCallOutcome → RollCallOutcome
check_pbft pbft (reported peers) =
    if pbft && ltb (length peers) minimum_replica_count
    then too_few_for_pbft (length peers)
    else reported peers
check_pbft pbft outcome = outcome

-- After the roll call has been published.
unfoldable pub execute_roll_call : Bool → Text → Option ℕ → List RollCallEvent → RollCallOutcome
execute_roll_call pbft function_id node_count events =
    check_pbft pbft (roll_call_loop function_id node_count [] events)
