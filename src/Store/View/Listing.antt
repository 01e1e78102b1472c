-- ===== src/Store/View/Listing.antt =====
-- A listing by prefix, over the entries of one kind.
pub mod Peers
pub mod Functions
use b7s.Common.{
  List, [], ◌∷◌, Option, none, some, ◌≡◌, ◌≢◌, refl, sym, ◌∙◌, ◌⊎◌, ◌↔◌, inl, inr, Bool, true,
  false, arith, Option-cases, In,
}
use b7s.Common.Text.{Text, text_eq}
use b7s.Common.Bytes.{get, set, take, text_ltb}
use b7s.Common.Map.{lookup}
use b7s.Common.Outcome.{Outcome, ok, err, ◌>>=◌, or_error, Outcome-cases}
use b7s.Models.{PeerId, Peer, FunctionRecord}
use b7s.Store.Key.{
  encode_key, add_segments, prefix_peer, prefix_function, iterator_prefix_upper_bound,
  upper_bound_loop,
}
use b7s.Store.Key.Bounds.{within}
use b7s.Store.Database.{
  Outside, Codec, GetResult, found, not_found, get_failed, Laws, GetResult-cases,
}
use b7s.Store.Records.{
  StoreError, retrieve, retrieve_each, retrieve_prefix, retrieve_peer, retrieve_function,
  retrieve_peers, retrieve_functions,
}
use b7s.Store.Table.{Holds, IsOwned}
use b7s.Store.View.{
  View, Command, apply_all, empty_view, peer_key, function_key, perform_all, StandsFor,
}
use b7s.Store.View.Refines.{retrieve-Holds, perform_all-StandsFor, clean-StandsFor, answer}

module _ (o : Outside) (l : Laws o) {V : Type 0} (codec : Codec V) where
  -- Every key can be read, and the values are those of the keys.
  retrieve_each-In :
      (keys : List Text) (db : o.Database)
      → ((key : Text) → In key keys → (v : V) × (retrieve o codec key db ≡ ok v))
      → (vals : List V) × (retrieve_each o codec keys db ≡ ok vals)
        × ((v : V) → In v vals ↔ ((key : Text) × In key keys × (retrieve o codec key db ≡ ok v)))
  unfolding retrieve_each ◌>>=◌
  retrieve_each-In [] db all = ([], refl, λ v. (λ i. absurd i, λ (key, i, q). absurd i))
  retrieve_each-In (key ∷ keys) db all =
      let (w, q) = all key (inl refl) in
      let (vals, r, iff) = retrieve_each-In keys db (λ j i. all j (inr i)) in
      (
        w ∷ vals,
        rw (q, r) refl,
        λ v. (
          λ i. elim i [
            | inl e ↦ (key, inl refl, cc)
            | inr i ↦ let (j, m, t) = (iff v).0 i in (j, inr m, t)
          ],
          λ (j, m, t). elim m [ inl e ↦ inl (ground arith) | inr m ↦ inr ((iff v).1 (j, m, t)) ],
        ),
      )

  pub retrieve_found :
      (key : Text) (db : o.Database) (v : V)
      → retrieve o codec key db ≡ ok v
      → (val : Text) × (o.get key db ≡ found val)
  unfolding retrieve
  retrieve_found key db v h = elim (GetResult-cases (o.get key db)) [
    | inl (val, e) ↦ (val, e)
    | inr (inl e) ↦ ground arith
    | inr (inr e) ↦ ground arith
  ]

  module _ {K : Type 0} (key_of : K → Option Text) (prefix : Text) (db : o.Database)
      (owned : (key val : Text)
        → o.get key db ≡ found val
        → within prefix (iterator_prefix_upper_bound prefix) key ≡ true
        → (k : K) × (v : V) × (key_of k ≡ some key) × (retrieve o codec key db ≡ ok v))
      (inside : (k : K) (key : Text)
        → key_of k ≡ some key
        → within prefix (iterator_prefix_upper_bound prefix) key ≡ true) where
    pub retrieve_prefix-In :
        (keys : List Text)
        → o.new_iter prefix (iterator_prefix_upper_bound prefix) db ≡ some keys
        → (vals : List V) × (retrieve_prefix o codec prefix db ≡ ok vals)
          × ((v : V)
              → In v vals ↔ (
                  (k : K) × (key : Text) × (key_of k ≡ some key)
                  × (retrieve o codec key db ≡ ok v)))
    unfolding retrieve_prefix ◌>>=◌
    retrieve_prefix-In keys h =
        let (vals, r, iff) = retrieve_each-In keys db (λ key i.
          let ((val, g), w) = (l.new_iter_lists prefix _ db keys h key).0 i in
          let (k, v, e, q) = owned key val g w in (v, q)) in
        (
          vals,
          rw h r,
          λ v. (
            λ i.
                let (key, m, q) = (iff v).0 i in
                let ((val, g), w) = (l.new_iter_lists prefix _ db keys h key).0 m in
                let (k, u, e, t) = owned key val g w in (k, key, e, q),
            λ (k, key, e, q). (iff v).1 (
              key,
              (l.new_iter_lists prefix _ db keys h key).1
                  (retrieve_found key db v q, inside k key e),
              q,
            ),
          ),
        )
