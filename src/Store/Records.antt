-- ===== src/Store/Records.antt =====
-- store/save.go, store/retrieve.go, store/remove.go and store/keys.go.
use b7s.Common.{List, [], ◌∷◌, none, some, if◌then◌else◌}
use b7s.Common.Text.{Text}
use b7s.Common.Outcome.{Outcome, ok, err, or_error, ◌>>=◌}
use b7s.Models.{PeerId, Peer, FunctionRecord}
use b7s.Store.Key.{encode_key, prefix_peer, prefix_function, iterator_prefix_upper_bound}
use b7s.Store.Database.{Outside, Codec, found, not_found, get_failed}

pub data StoreError : Type 0 where
  -- `ErrNotFound` of models/blockless, and the library's errors.
  record_not_found get_error decode_error encode_error set_error delete_error : StoreError
  peer_id_error iterator_error : StoreError

module _ (o : Outside) where
  -- The result of a write, and the database after.
  abbrev pub Written : Type 0
  Written = Outcome StoreError Unit × o.Database

  module _ {V : Type 0} (codec : Codec V) where
    unfoldable pub retrieve : Text → o.Database → Outcome StoreError V
    retrieve key db = elim (o.get key db) [
      | found val ↦ or_error decode_error (codec.unmarshal val)
      | not_found ↦ err record_not_found
      | get_failed ↦ err get_error
    ]

    unfoldable pub save : Text → V → o.Database → Written
    save key val db = elim (codec.marshal val) [
      | none ↦ (err encode_error, db)
      | some encoded ↦
          let (good, after) = o.set key encoded db in (if good then ok tt else err set_error, after)
    ]

    -- The loop of `RetrievePeers` and `RetrieveFunctions` over the iterator's keys.
    unfoldable pub retrieve_each : List Text → o.Database → Outcome StoreError (List V)
    retrieve_each [] db = ok []
    retrieve_each (key ∷ keys) db =
        retrieve key db >>= λ val. retrieve_each keys db >>= λ rest. ok (val ∷ rest)

    unfoldable pub retrieve_prefix : Text → o.Database → Outcome StoreError (List V)
    retrieve_prefix prefix db =
        or_error iterator_error (o.new_iter prefix (iterator_prefix_upper_bound prefix) db)
        >>= λ keys. retrieve_each keys db

  unfoldable pub remove : Text → o.Database → Written
  remove key db =
      let (good, after) = o.delete key db in (if good then ok tt else err delete_error, after)

  unfoldable pub save_peer : Peer → o.Database → Written
  save_peer peer db = elim (o.marshal_binary peer.id) [
    | none ↦ (err peer_id_error, db)
    | some id ↦ save o.peer_codec (encode_key prefix_peer (id ∷ [])) peer db
  ]

  unfoldable pub save_function : FunctionRecord → o.Database → Written
  save_function function db =
      save o.function_codec (encode_key prefix_function (function.cid ∷ [])) function db

  unfoldable pub retrieve_peer : PeerId → o.Database → Outcome StoreError Peer
  retrieve_peer id db = or_error peer_id_error (o.marshal_binary id) >>= λ bytes.
      retrieve o.peer_codec (encode_key prefix_peer (bytes ∷ [])) db

  unfoldable pub retrieve_function : Text → o.Database → Outcome StoreError FunctionRecord
  retrieve_function cid db = retrieve o.function_codec (encode_key prefix_function (cid ∷ [])) db

  unfoldable pub retrieve_peers : o.Database → Outcome StoreError (List Peer)
  retrieve_peers db = retrieve_prefix o.peer_codec (prefix_peer ∷ []) db

  unfoldable pub retrieve_functions : o.Database → Outcome StoreError (List FunctionRecord)
  retrieve_functions db = retrieve_prefix o.function_codec (prefix_function ∷ []) db

  unfoldable pub remove_peer : PeerId → o.Database → Written
  remove_peer id db = elim (o.marshal_binary id) [
    | none ↦ (err peer_id_error, db)
    | some bytes ↦ remove (encode_key prefix_peer (bytes ∷ [])) db
  ]

  unfoldable pub remove_function : Text → o.Database → Written
  remove_function cid db = remove (encode_key prefix_function (cid ∷ [])) db
