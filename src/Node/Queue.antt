-- ===== src/Node/Queue.antt =====
-- The responses to roll calls by their request (node/queue.go). A buffered channel is the list of what
-- it holds; `none` stands for a send that blocks, with the queue's lock held.
pub mod Kept
use b7s.Common.{ℕ, Bool, List, [], ◌∷◌, ◌++◌, Option, none, some, length, ltb, if◌then◌else◌}
use b7s.Common.Text.{Text, text_eq}
use b7s.Common.Map.{Map, lookup, insert, erase, has}
use b7s.Models.{PeerId}

-- `rollCallResponse`, as far as the head node reads it.
pub record RollCallResponse : Type 0 where
  pub from : PeerId
  pub function_id : Text
  pub code : Text

pub record RollCallQueue : Type 0 where
  pub size : ℕ
  pub channels : Map Text (List RollCallResponse)

abbrev pub roll_call_queue_buffer_size : ℕ
roll_call_queue_buffer_size = 1000

unfoldable pub new_queue : ℕ → RollCallQueue
new_queue buf_size = record { size = buf_size; channels = [] }

unfoldable pub create : Text → RollCallQueue → RollCallQueue
create req_id q = elim (lookup req_id q.channels) [
  | some channel ↦ q
  | none ↦ record q { channels = insert req_id [] q.channels }
]

unfoldable pub add : Text → RollCallResponse → RollCallQueue → Option RollCallQueue
add id res q = elim (lookup id q.channels) [
  | none ↦ some q
  | some channel ↦
      if ltb (length channel) q.size
      then some (record q { channels = insert id (channel ++ res ∷ []) q.channels })
      else none
]

unfoldable pub exists : Text → RollCallQueue → Bool
exists req_id q = has (lookup req_id q.channels)

-- The channel of a request, for the loop that receives from it.
unfoldable pub responses : Text → RollCallQueue → List RollCallResponse × RollCallQueue
responses req_id q = elim (lookup req_id q.channels) [
  | some channel ↦ (channel, q)
  | none ↦ ([], record q { channels = insert req_id [] q.channels })
]

-- One receive by that loop; `none` is to wait.
unfoldable pub receive : Text → RollCallQueue → Option RollCallResponse × RollCallQueue
receive req_id q =
    let (channel, opened) = responses req_id q in
    elim channel [
      | [] ↦ (none, opened)
      | res ∷ rest ↦ (some res, record opened { channels = insert req_id rest opened.channels })
    ]

-- The draining loop.
unfoldable pub drain : List RollCallResponse → List RollCallResponse
drain [] = []
drain (res ∷ rest) = drain rest

unfoldable pub remove : Text → RollCallQueue → RollCallQueue
remove req_id q = elim (lookup req_id q.channels) [
  | none ↦ q
  | some channel ↦
      let drained = insert req_id (drain channel) q.channels in
      record q { channels = erase req_id drained }
]
