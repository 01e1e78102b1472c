-- ===== src/Store/View/Listing/Peers.antt =====
-- The list of all peers.
use b7s.Common.{
  List, [], ◌∷◌, none, some, ◌≡◌, ◌≢◌, refl, sym, subst, ◌∙◌, ◌↔◌, inl, inr, true, false, arith,
  Option-cases, In,
}
use b7s.Common.Text.{Text, text_eq}
use b7s.Common.Bytes.{get, set, take, text_ltb}
use b7s.Common.Map.{lookup}
use b7s.Common.Outcome.{ok, ◌>>=◌}
use b7s.Models.{PeerId, Peer}
use b7s.Store.Key.{
  encode_key, add_segments, prefix_peer, iterator_prefix_upper_bound, upper_bound_loop,
}
use b7s.Store.Key.Bounds.{within}
use b7s.Store.Database.{Outside, Laws}
use b7s.Store.Records.{retrieve, retrieve_peer, retrieve_peers}
use b7s.Store.Table.{Holds}
use b7s.Store.View.{View, peer_key, function_key, StandsFor}
use b7s.Store.View.Refines.{retrieve-Holds}
use b7s.Store.View.Listing.{retrieve_prefix-In}

pub some_injective : (a b : Text) → some a ≡ some b → a ≡ b
some_injective a b h = cc

module _ (o : Outside) (l : Laws o) (v : View) (db : o.Database) (s : StandsFor o db v) where
  peer_key-within :
      (id : PeerId) (key : Text)
      → peer_key o id ≡ some key
      → within (prefix_peer ∷ []) (iterator_prefix_upper_bound (prefix_peer ∷ [])) key ≡ true
  unfolding encode_key add_segments iterator_prefix_upper_bound upper_bound_loop get set take
      text_ltb
  peer_key-within id key e = elim (Option-cases (o.marshal_binary id)) [
    | inl n ↦ ground arith
    | inr (bytes, q) ↦ rw (← some_injective _ key (key_at bytes q)) refl
  ]
    where
      key_at : (bytes : Text) → o.marshal_binary id ≡ some bytes → some (1 ∷ 58 ∷ bytes) ≡ some key
      key_at bytes q = cc

  function_key-outside :
      (cid : Text) (key : Text)
      → function_key o cid ≡ some key
      → within (prefix_peer ∷ []) (iterator_prefix_upper_bound (prefix_peer ∷ [])) key ≡ false
  unfolding encode_key add_segments iterator_prefix_upper_bound upper_bound_loop get set take
      text_ltb
  function_key-outside cid key e = rw (← some_injective _ key e) refl

  retrieve_peer-at :
      (id : PeerId) (key : Text)
      → peer_key o id ≡ some key
      → retrieve_peer o id db ≡ retrieve o o.peer_codec key db
  unfolding retrieve_peer ◌>>=◌
  retrieve_peer-at id key e = elim (Option-cases (o.marshal_binary id)) [
    | inl n ↦ ground arith
    | inr (bytes, q) ↦ ground arith
  ]

  retrieve_peer-none :
      (id : PeerId) (p : Peer) → peer_key o id ≡ none → retrieve_peer o id db ≢ ok p
  unfolding retrieve_peer ◌>>=◌
  retrieve_peer-none id p n h = elim (Option-cases (o.marshal_binary id)) [
    | inl m ↦ ground arith
    | inr (bytes, m) ↦ ground arith
  ]

  pub retrieve_peers-In :
      (keys : List Text)
      → o.new_iter (prefix_peer ∷ []) (iterator_prefix_upper_bound (prefix_peer ∷ [])) db
        ≡ some keys
      → (peers : List Peer) × (retrieve_peers o db ≡ ok peers)
        × ((p : Peer) → In p peers ↔ ((id : PeerId) × (retrieve_peer o id db ≡ ok p)))
  unfolding retrieve_peers
  retrieve_peers-In keys h =
      let (peers, r, iff) =
        retrieve_prefix-In o l o.peer_codec (peer_key o) (prefix_peer ∷ []) db
          (λ key val g w. elim (s.2 key val g) [
            | inl (id, p, e, look) ↦ (id, p, e, held id key p e look)
            | inr (cid, f, e, look) ↦ ground (arith, w, function_key-outside cid key e)
          ])
          peer_key-within keys h in
      (
        peers,
        r,
        λ p. (
          λ i. let (id, key, e, q) = (iff p).0 i in (id, retrieve_peer-at id key e ∙ q),
          λ (id, q). (iff p).1 (listed id p q),
        ),
      )
    where
      held :
          (id : PeerId) (key : Text) (p : Peer)
          → peer_key o id ≡ some key
          → lookup id v.peers ≡ some p
          → retrieve o o.peer_codec key db ≡ ok p
      held id key p e look =
          retrieve-Holds o l o.peer_codec key db (some p) l.peer_codec_reads
            (subst (λ r. Holds o.peer_codec r (o.get key db)) look (s.0 id key e))

      listed :
          (id : PeerId) (p : Peer)
          → retrieve_peer o id db ≡ ok p
          → (k : PeerId) × (key : Text) × (peer_key o k ≡ some key)
            × (retrieve o o.peer_codec key db ≡ ok p)
      listed id p q = elim (Option-cases (peer_key o id)) [
        | inl n ↦ absurd (retrieve_peer-none id p n q)
        | inr (key, e) ↦ (id, key, e, sym (retrieve_peer-at id key e) ∙ q)
      ]
