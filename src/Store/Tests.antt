-- ===== src/Store/Tests.antt =====
-- The store at concrete inputs.
pub mod Memory
use b7s.Common.{ℕ, List, [], ◌∷◌, Option, none, some, ◌≡◌, refl, ◌↔◌, In, true, arith}
use b7s.Common.Text.{has_prefix, Text, text_eq, text_beq}
use b7s.Common.Bytes.{get, set, take, text_ltb}
use b7s.Common.Map.{lookup, insert, erase}
use b7s.Common.Outcome.{Outcome, ok, err, ◌>>=◌}
use b7s.Models.{PeerId, Peer, FunctionRecord}
use b7s.Store.Key.{
  encode_key, add_segments, prefix_peer, iterator_prefix_upper_bound, upper_bound_loop,
}
use b7s.Store.Key.Bounds.{within, within-iterator_prefix_upper_bound}
use b7s.Store.Database.{not_found}
use b7s.Store.Records.{
  save, remove, save_peer, save_function, remove_peer, remove_function, retrieve, retrieve_peer,
  retrieve_function, retrieve_peers, retrieve_functions,
}
use b7s.Store.View.{
  Command, put_peer, put_function, drop_peer, drop_function, apply_all, empty_view, perform_all,
}
use b7s.Store.View.Refines.{answer, perform_all-refines}
use b7s.Store.View.Listing.Functions.{retrieve_all-In}
use b7s.Store.Tests.Memory.{memory, memory-Laws, archived, FunctionRecord-discrete}
use native.Mathlib.Decide.{ℕ_discrete}

-- The bytes 1 and 255: the last byte turns over to zero and is cut off.
upper_bound_test : iterator_prefix_upper_bound (1 ∷ 255 ∷ []) ≡ some (2 ∷ [])
unfolding iterator_prefix_upper_bound upper_bound_loop get set take
upper_bound_test = refl

within-iterator_prefix_upper_bound_example :
    within (1 ∷ 255 ∷ []) (iterator_prefix_upper_bound (1 ∷ 255 ∷ [])) (1 ∷ 255 ∷ 58 ∷ [])
    ≡ has_prefix (1 ∷ 255 ∷ []) (1 ∷ 255 ∷ 58 ∷ [])
within-iterator_prefix_upper_bound_example =
    within-iterator_prefix_upper_bound (1 ∷ 255 ∷ []) (1 ∷ 255 ∷ 58 ∷ [])
      (omega arith, (omega arith, tt)) (omega arith, (omega arith, (omega arith, tt)))

-- Two peers and a function are saved, a peer again, and the other is removed.
abbrev peer_at : PeerId → Text → Peer
peer_at id addr = record { id = id; multi_addr = addr; addr_info = [] }

abbrev commands : List Command
commands =
    put_peer (peer_at (7 ∷ []) [])
    ∷ put_peer (peer_at (8 ∷ []) [])
    ∷ put_function (archived (7 ∷ []))
    ∷ put_peer (peer_at (8 ∷ []) (9 ∷ []))
    ∷ drop_peer (7 ∷ [])
    ∷ []

abbrev after_commands : memory.Database
after_commands = (perform_all memory commands []).1

commands_succeed : perform_all memory commands [] ≡ (ok tt, after_commands)
unfolding perform_all save_peer save_function remove_peer save remove insert erase encode_key
    add_segments text_beq FunctionRecord-discrete ℕ_discrete
commands_succeed = refl

nothing : (key : Text) → memory.get key [] ≡ not_found
unfolding lookup
nothing key = refl

perform_all-refines_example :
    ((id : PeerId) (bytes : Text)
      → memory.marshal_binary id ≡ some bytes
      → retrieve_peer memory id after_commands
        ≡ answer (lookup id (apply_all commands empty_view).peers))
    × ((cid : Text)
        → retrieve_function memory cid after_commands
          ≡ answer (lookup cid (apply_all commands empty_view).functions))
perform_all-refines_example =
    perform_all-refines memory memory-Laws commands [] after_commands nothing commands_succeed

retrieve_all-In_example :
    ((peers : List Peer) × (retrieve_peers memory after_commands ≡ ok peers)
      × ((p : Peer)
          → In p peers ↔ ((id : PeerId) × (retrieve_peer memory id after_commands ≡ ok p))))
    × ((functions : List FunctionRecord) × (retrieve_functions memory after_commands ≡ ok functions)
        × ((f : FunctionRecord)
            → In f functions
              ↔ ((cid : Text) × (retrieve_function memory cid after_commands ≡ ok f))))
retrieve_all-In_example =
    retrieve_all-In memory memory-Laws commands [] after_commands _ _ nothing commands_succeed refl
      refl
