-- ===== src/Node/Tests/Delivery.antt =====
-- Messages, waits and the queue at concrete inputs.
use b7s.Common.{ℕ, List, [], ◌∷◌, true, some, ◌≡◌, ◌≢◌, refl, ◌↔◌, arith, ◌==◌, nat_eq, In}
use b7s.Common.Text.{Text, text_eq, text_beq}
use b7s.Common.Map.{Map, lookup, insert}
use b7s.Pbft.Tests.Fixtures.{alice, bob, carol, seven}
use b7s.Node.Gate.{
  MessageKind, roll_call, message_type, Pipeline, pub_sub, direct_message, worker_node, dispose,
  handled_by, unknown_type,
}
use b7s.Node.Gate.Accepted.{concerns, channel_of, fits, dispose-handled_by}
use b7s.Node.Waiting.{Cache, WaitMap, new_wait_map, WaitEvent, sets, waits, gets, set, wait, run}
use b7s.Node.Waiting.Served.{wait-set}
use b7s.Node.Queue.{RollCallResponse, RollCallQueue, new_queue, create}
use b7s.Node.Queue.Kept.{Arrivals, add_all, for_request, extended, HasRoom, add_all-lookup}

abbrev general : Pipeline
general = record { id = pub_sub; topic = seven }

dispose-handled_by_example :
    ((kind : MessageKind)
      → (dispose (λ t. some t) worker_node (message_type roll_call) general ≡ handled_by kind) ↔ (
          (some (message_type roll_call) ≡ some (message_type kind))
          × (concerns kind worker_node ≡ true)
          × (fits (channel_of kind) (general.id == direct_message) ≡ true)))
    × (dispose (λ t. some t) worker_node (message_type roll_call) general ≢ unknown_type)
dispose-handled_by_example =
    dispose-handled_by (λ t. some t) worker_node (message_type roll_call) general

-- A cache that keeps everything.
abbrev keep_all : Cache Text ℕ
keep_all = record {
  Entries = Map Text ℕ;
  new = [];
  add = insert;
  get = λ key entries. (lookup key entries, entries);
}

abbrev start : WaitMap keep_all
start = new_wait_map keep_all

abbrev between : List (WaitEvent keep_all)
between = sets bob 5 ∷ waits alice 2 ∷ gets carol ∷ []

wait-set_example :
    In
      (1, 7)
      (run keep_all
        (sets alice 8 ∷ [])
        (set keep_all alice 7 (run keep_all between (wait keep_all alice 1 start).1))).delivered
unfolding wait lookup
wait-set_example =
    wait-set keep_all alice 1 7 between (sets alice 8 ∷ []) start refl (ground (arith), tt)

abbrev answer : RollCallResponse
answer = record { from = bob; function_id = seven; code = [] }

abbrev queue : RollCallQueue
queue = create alice (new_queue 2)

abbrev arriving : Arrivals
arriving = (alice, answer) ∷ (carol, answer) ∷ (alice, answer) ∷ []

room : HasRoom arriving queue
unfolding create new_queue lookup insert text_beq
room req_id channel h = ground (arith, text_eq.beq_iff alice req_id, text_eq.beq_iff carol req_id)

add_all-lookup_example :
    (after : RollCallQueue) × (add_all arriving queue ≡ some after)
    × ((req_id : Text)
        → lookup req_id after.channels
          ≡ extended (lookup req_id queue.channels) (for_request req_id arriving))
add_all-lookup_example = add_all-lookup arriving queue room
