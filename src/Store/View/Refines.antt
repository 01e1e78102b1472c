-- ===== src/Store/View/Refines.antt =====
-- The store refines its view: the commands that succeed, and the reads.
use b7s.Common.{
  List, [], ◌∷◌, Option, none, some, ◌≡◌, refl, subst, ap, inl, inr, arith, Option-cases,
}
use b7s.Common.Text.{Text, text_eq}
use b7s.Common.Map.{lookup, insert, erase}
use b7s.Common.Outcome.{Outcome, ok, ◌>>=◌, or_error, Outcome-cases}
use b7s.Models.{PeerId, Peer, FunctionRecord}
use b7s.Store.Key.{encode_key, prefix_peer, prefix_function}
use b7s.Store.Database.{Outside, Codec, not_found, Laws}
use b7s.Store.Records.{
  StoreError, record_not_found, save_peer, save_function, remove_peer, remove_function, retrieve,
  retrieve_peer, retrieve_function,
}
use b7s.Store.Table.{Holds}
use b7s.Store.Table.Pair.{insert-IsPair, erase-IsPair, swap-IsPair}
use b7s.Store.View.{
  View, Command, put_peer, put_function, drop_peer, drop_function, apply, apply_all, empty_view,
  peer_key, function_key, perform, perform_all, StandsFor,
}
use b7s.Store.View.Steps.{
  save_inversion, remove_inversion, peer_key_injective, function_key_injective,
  peer_key-function_key,
}

module _ (o : Outside) (l : Laws o) (v : View) (db after : o.Database) (s : StandsFor o db v) where
  put_peer-StandsFor :
      (p : Peer) → save_peer o p db ≡ (ok tt, after) → StandsFor o after (apply (put_peer p) v)
  unfolding save_peer
  put_peer-StandsFor p h = elim (Option-cases (o.marshal_binary p.id)) [
    | inl n ↦ ground arith
    | inr (id, e) ↦
        let (val, m, g) =
          save_inversion o l o.peer_codec (encode_key prefix_peer (id ∷ [])) p db after
            (ground arith) in
        insert-IsPair o o.peer_codec (peer_key o) o.function_codec (function_key o)
          (peer_key_injective o l) (function_key_injective o l)
          (λ a b key q r. peer_key-function_key o l a b (cc)) p.id _ (ground arith) v.peers
          v.functions db after p val m g s
  ]

  drop_peer-StandsFor :
      (p : PeerId) → remove_peer o p db ≡ (ok tt, after) → StandsFor o after (apply (drop_peer p) v)
  unfolding remove_peer
  drop_peer-StandsFor p h = elim (Option-cases (o.marshal_binary p)) [
    | inl n ↦ ground arith
    | inr (id, e) ↦
        let g = remove_inversion o l (encode_key prefix_peer (id ∷ [])) db after (ground arith) in
        erase-IsPair o o.peer_codec (peer_key o) o.function_codec (function_key o)
          (peer_key_injective o l) (function_key_injective o l)
          (λ a b key q r. peer_key-function_key o l a b (cc)) p _ (ground arith) v.peers v.functions
          db after g s
  ]

  put_function-StandsFor :
      (f : FunctionRecord)
      → save_function o f db ≡ (ok tt, after)
      → StandsFor o after (apply (put_function f) v)
  unfolding save_function
  put_function-StandsFor f h =
      let (val, m, g) =
        save_inversion o l o.function_codec (encode_key prefix_function (f.cid ∷ [])) f db after
          h in
      swap-IsPair o o.function_codec (function_key o) o.peer_codec (peer_key o)
        (insert f.cid f v.functions) v.peers after
        (insert-IsPair o o.function_codec (function_key o) o.peer_codec (peer_key o)
          (function_key_injective o l) (peer_key_injective o l)
          (λ a b key q r. peer_key-function_key o l b a (cc)) f.cid _ refl v.functions v.peers db
          after f val m g
          (swap-IsPair o o.peer_codec (peer_key o) o.function_codec (function_key o) v.peers
            v.functions db s))

  drop_function-StandsFor :
      (cid : Text)
      → remove_function o cid db ≡ (ok tt, after)
      → StandsFor o after (apply (drop_function cid) v)
  unfolding remove_function
  drop_function-StandsFor cid h =
      let g = remove_inversion o l (encode_key prefix_function (cid ∷ [])) db after h in
      swap-IsPair o o.function_codec (function_key o) o.peer_codec (peer_key o)
        (erase cid v.functions) v.peers after
        (erase-IsPair o o.function_codec (function_key o) o.peer_codec (peer_key o)
          (function_key_injective o l) (peer_key_injective o l)
          (λ a b key q r. peer_key-function_key o l b a (cc)) cid _ refl v.functions v.peers db
          after g
          (swap-IsPair o o.peer_codec (peer_key o) o.function_codec (function_key o) v.peers
            v.functions db s))

  perform-StandsFor :
      (c : Command) → perform o c db ≡ (ok tt, after) → StandsFor o after (apply c v)
  perform-StandsFor (put_peer p) h = put_peer-StandsFor p h
  perform-StandsFor (put_function f) h = put_function-StandsFor f h
  perform-StandsFor (drop_peer id) h = drop_peer-StandsFor id h
  perform-StandsFor (drop_function cid) h = drop_function-StandsFor cid h

-- What a read of the store answers for a record of the view, or for none.
abbrev pub answer : {V : Type 0} → Option V → Outcome StoreError V
answer r = or_error record_not_found r

module _ (o : Outside) (l : Laws o) where
  perform_all_inversion :
      (c : Command) (cs : List Command) (db after : o.Database)
      → perform_all o (c ∷ cs) db ≡ (ok tt, after)
      → (mid : o.Database) × (perform o c db ≡ (ok tt, mid))
        × (perform_all o cs mid ≡ (ok tt, after))
  unfolding perform_all
  perform_all_inversion c cs db after h = elim (Outcome-cases (perform o c db).0) [
    | inl (done, e) ↦ ((perform o c db).1, ground arith, ground arith)
    | inr (e, q) ↦ ground arith
  ]

  pub perform_all-StandsFor :
      (cs : List Command) (v : View) (db after : o.Database)
      → StandsFor o db v
      → perform_all o cs db ≡ (ok tt, after)
      → StandsFor o after (apply_all cs v)
  unfolding perform_all
  perform_all-StandsFor [] v db after s h = subst (λ x. StandsFor o x v) (ap (λ x. x.1) h) s
  perform_all-StandsFor (c ∷ cs) v db after s h =
      let (mid, q, r) = perform_all_inversion c cs db after h in
      perform_all-StandsFor cs (apply c v) mid after (perform-StandsFor o l v db mid s c q) r

  pub retrieve-Holds :
      {V : Type 0} (codec : Codec V) (key : Text) (db : o.Database) (r : Option V)
      → ((w : V) (val : Text) → codec.marshal w ≡ some val → codec.unmarshal val ≡ some w)
      → Holds codec r (o.get key db)
      → retrieve o codec key db ≡ answer r
  unfolding retrieve
  retrieve-Holds codec key db none reads h = rw (retrieve, h) refl
  retrieve-Holds codec key db (some w) reads (val, m, h) = rw (retrieve, h, reads w val m) refl

  pub clean-StandsFor :
      (db : o.Database) → ((key : Text) → o.get key db ≡ not_found) → StandsFor o db empty_view
  unfolding lookup
  clean-StandsFor db clean =
      (λ id key q. clean key, λ cid key q. clean key, λ key val r. absurd (cc (clean key)))

  -- Commands that all succeed, on a store that is empty at the start: a peer whose ID has a binary form
  -- is found just when the commands leave it in the map of peers, and is then the peer last
  -- saved, and the same goes for function records; neither kind disturbs the other.
  pub perform_all-refines :
      (cs : List Command) (db after : o.Database)
      → ((key : Text) → o.get key db ≡ not_found)
      → perform_all o cs db ≡ (ok tt, after)
      → ((id : PeerId) (bytes : Text)
          → o.marshal_binary id ≡ some bytes
          → retrieve_peer o id after ≡ answer (lookup id (apply_all cs empty_view).peers))
        × ((cid : Text)
            → retrieve_function o cid after
              ≡ answer (lookup cid (apply_all cs empty_view).functions))
  unfolding retrieve_peer retrieve_function ◌>>=◌
  perform_all-refines cs db after clean h =
      let s = perform_all-StandsFor cs empty_view db after (clean-StandsFor db clean) h in
      (
        λ id bytes e. rw e (
            retrieve-Holds o.peer_codec _ after _ l.peer_codec_reads
              (s.0 id (encode_key prefix_peer (bytes ∷ [])) (ground arith))),
        λ cid. retrieve-Holds o.function_codec _ after _ l.function_codec_reads (s.1 cid _ refl),
      )
