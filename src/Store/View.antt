-- ===== src/Store/View.antt =====
-- What a client sees of the store: a map of peers and a map of function records, and the commands that
-- write to it. A database stands for a view when each of its entries is a record of the view under
-- the record's own key, and nothing else is in it.
pub mod Steps
pub mod Refines
pub mod Listing
use b7s.Common.{List, [], ◌∷◌, Option, none, some, ◌≡◌, ◌⊎◌}
use b7s.Common.Text.{Text, text_eq}
use b7s.Common.Map.{Map, lookup, insert, erase}
use b7s.Common.Outcome.{Outcome, ok, err}
use b7s.Models.{PeerId, Peer, FunctionRecord}
use b7s.Store.Key.{encode_key, prefix_peer, prefix_function}
use b7s.Store.Database.{Outside, found}
use b7s.Store.Table.Pair.{IsPair}
use b7s.Store.Records.{Written, save_peer, save_function, remove_peer, remove_function}

pub record View : Type 0 where
  pub peers : Map PeerId Peer
  pub functions : Map Text FunctionRecord

pub data Command : Type 0 where
  put_peer : Peer → Command
  put_function : FunctionRecord → Command
  drop_peer : PeerId → Command
  drop_function : Text → Command

abbrev pub apply : Command → View → View
apply (put_peer p) v = record v { peers = insert p.id p v.peers }
apply (put_function f) v = record v { functions = insert f.cid f v.functions }
apply (drop_peer id) v = record v { peers = erase id v.peers }
apply (drop_function cid) v = record v { functions = erase cid v.functions }

abbrev pub apply_all : List Command → View → View
apply_all [] v = v
apply_all (c ∷ cs) v = apply_all cs (apply c v)

abbrev pub empty_view : View
empty_view = record { peers = []; functions = [] }

module _ (o : Outside) where
  abbrev pub perform : Command → o.Database → Written o
  perform (put_peer p) = save_peer o p
  perform (put_function f) = save_function o f
  perform (drop_peer id) = remove_peer o id
  perform (drop_function cid) = remove_function o cid

  -- The commands in their order, as long as they succeed.
  unfoldable pub perform_all : List Command → o.Database → Written o
  perform_all [] db = (ok tt, db)
  perform_all (c ∷ cs) db =
      let (res, after) = perform c db in
      let rest = perform_all cs after in elim res [ ok done ↦ rest | err e ↦ (err e, after) ]

  abbrev pub peer_key : PeerId → Option Text
  peer_key id = elim (o.marshal_binary id) [
    | none ↦ none
    | some bytes ↦ some (encode_key prefix_peer (bytes ∷ []))
  ]

  abbrev pub function_key : Text → Option Text
  function_key cid = some (encode_key prefix_function (cid ∷ []))

  abbrev pub StandsFor : o.Database → View → Type 0
  StandsFor db v =
      IsPair o o.peer_codec peer_key o.function_codec function_key v.peers v.functions db
