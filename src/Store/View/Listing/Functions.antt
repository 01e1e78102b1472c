-- ===== src/Store/View/Listing/Functions.antt =====
-- The list of all function records, and both lists after a run of commands.
use b7s.Common.{
  List, [], ◌∷◌, some, ◌≡◌, refl, subst, ◌↔◌, inl, inr, true, false, arith, Option-cases, In,
}
use b7s.Common.Text.{Text, text_eq}
use b7s.Common.Bytes.{get, set, take, text_ltb}
use b7s.Common.Map.{lookup}
use b7s.Common.Outcome.{ok}
use b7s.Models.{PeerId, Peer, FunctionRecord}
use b7s.Store.Key.{
  encode_key, add_segments, prefix_peer, prefix_function, iterator_prefix_upper_bound,
  upper_bound_loop,
}
use b7s.Store.Key.Bounds.{within}
use b7s.Store.Database.{Outside, not_found, Laws}
use b7s.Store.Records.{
  retrieve, retrieve_peer, retrieve_function, retrieve_peers, retrieve_functions,
}
use b7s.Store.Table.{Holds}
use b7s.Store.View.{View, Command, empty_view, peer_key, function_key, perform_all, StandsFor}
use b7s.Store.View.Refines.{retrieve-Holds, perform_all-StandsFor, clean-StandsFor}
use b7s.Store.View.Listing.{retrieve_prefix-In}
use b7s.Store.View.Listing.Peers.{some_injective, retrieve_peers-In}

module _ (o : Outside) (l : Laws o) (v : View) (db : o.Database) (s : StandsFor o db v) where
  function_key-within :
      (cid : Text) (key : Text)
      → function_key o cid ≡ some key
      → within (prefix_function ∷ []) (iterator_prefix_upper_bound (prefix_function ∷ [])) key
        ≡ true
  unfolding encode_key add_segments iterator_prefix_upper_bound upper_bound_loop get set take
      text_ltb
  function_key-within cid key e = rw (← some_injective _ key e) refl

  peer_key-outside :
      (id : PeerId) (key : Text)
      → peer_key o id ≡ some key
      → within (prefix_function ∷ []) (iterator_prefix_upper_bound (prefix_function ∷ [])) key
        ≡ false
  unfolding encode_key add_segments iterator_prefix_upper_bound upper_bound_loop get set take
      text_ltb
  peer_key-outside id key e = elim (Option-cases (o.marshal_binary id)) [
    | inl n ↦ ground arith
    | inr (bytes, q) ↦ rw (← some_injective _ key (key_at bytes q)) refl
  ]
    where
      key_at : (bytes : Text) → o.marshal_binary id ≡ some bytes → some (1 ∷ 58 ∷ bytes) ≡ some key
      key_at bytes q = cc

  pub retrieve_functions-In :
      (keys : List Text)
      → o.new_iter (prefix_function ∷ []) (iterator_prefix_upper_bound (prefix_function ∷ [])) db
        ≡ some keys
      → (functions : List FunctionRecord) × (retrieve_functions o db ≡ ok functions)
        × ((f : FunctionRecord)
            → In f functions ↔ ((cid : Text) × (retrieve_function o cid db ≡ ok f)))
  unfolding retrieve_functions retrieve_function
  retrieve_functions-In keys h =
      let (functions, r, iff) =
        retrieve_prefix-In o l o.function_codec (function_key o) (prefix_function ∷ []) db
          (λ key val g w. elim (s.2 key val g) [
            | inl (id, p, e, look) ↦ ground (arith, w, peer_key-outside id key e)
            | inr (cid, f, e, look) ↦ (cid, f, e, held cid key f e look)
          ])
          function_key-within keys h in
      (
        functions,
        r,
        λ f. (
          λ i. let (cid, key, e, q) = (iff f).0 i in (cid, rw (some_injective _ key e) q),
          λ (cid, q). (iff f).1 (cid, _, refl, q),
        ),
      )
    where
      held :
          (cid : Text) (key : Text) (f : FunctionRecord)
          → function_key o cid ≡ some key
          → lookup cid v.functions ≡ some f
          → retrieve o o.function_codec key db ≡ ok f
      held cid key f e look =
          retrieve-Holds o l o.function_codec key db (some f) l.function_codec_reads
            (subst (λ r. Holds o.function_codec r (o.get key db)) look (s.1 cid key e))

module _ (o : Outside) (l : Laws o) where
  -- After commands that all succeed on a store that is empty at the start, and if the iterators can be
  -- made: the list of all peers holds just the peers that can be retrieved by some ID, and
  -- the list of all function records just those that can be retrieved by some CID.
  pub retrieve_all-In :
      (cs : List Command) (db after : o.Database) (peer_keys function_keys : List Text)
      → ((key : Text) → o.get key db ≡ not_found)
      → perform_all o cs db ≡ (ok tt, after)
      → o.new_iter (prefix_peer ∷ []) (some (prefix_function ∷ [])) after ≡ some peer_keys
      → o.new_iter (prefix_function ∷ []) (some (3 ∷ [])) after ≡ some function_keys
      → ((peers : List Peer) × (retrieve_peers o after ≡ ok peers)
          × ((p : Peer) → In p peers ↔ ((id : PeerId) × (retrieve_peer o id after ≡ ok p))))
        × ((functions : List FunctionRecord) × (retrieve_functions o after ≡ ok functions)
            × ((f : FunctionRecord)
                → In f functions ↔ ((cid : Text) × (retrieve_function o cid after ≡ ok f))))
  unfolding iterator_prefix_upper_bound upper_bound_loop get set take
  retrieve_all-In cs db after peer_keys function_keys clean h p f =
      let s = perform_all-StandsFor o l cs empty_view db after (clean-StandsFor o l db clean) h in
      (
        retrieve_peers-In o l _ after s peer_keys p,
        retrieve_functions-In o l _ after s function_keys f,
      )
