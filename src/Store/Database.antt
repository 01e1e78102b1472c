-- ===== src/Store/Database.antt =====
-- What the store calls: the database (Pebble), the codec, and the bytes of a peer ID; with what the
-- theorems rely on.
use b7s.Common.{
  Bool, true, List, Option, some, ◌==◌, if◌then◌else◌, ◌≡◌, refl, ◌↔◌, ◌⊎◌, inl, inr, In,
}
use b7s.Common.Text.{Text, text_eq}
use b7s.Models.{PeerId, Peer, FunctionRecord}
use b7s.Store.Key.Bounds.{within}

pub data GetResult : Type 0 where
  found : Text → GetResult
  -- `pebble.ErrNotFound`, and another error.
  not_found get_failed : GetResult

-- To split on a computed answer and keep the equation.
pub GetResult-cases :
    (r : GetResult) → ((val : Text) × (r ≡ found val)) ⊎ (r ≡ not_found) ⊎ (r ≡ get_failed)
GetResult-cases (found val) = inl (val, refl)
GetResult-cases not_found = inr (inl refl)
GetResult-cases get_failed = inr (inr refl)

-- store/codec.go, at one type of values.
pub record Codec (V : Type 0) : Type 0 where
  pub marshal : V → Option Text
  pub unmarshal : Text → Option V

pub record Outside : Type 1 where
  pub Database : Type 0
  pub get : Text → Database → GetResult
  -- Whether there was no error, and the database after.
  pub set : Text → Text → Database → Bool × Database
  pub delete : Text → Database → Bool × Database
  -- The keys from the lower bound on, below the upper bound if there is one; `none` is an error.
  pub new_iter : Text → Option Text → Database → Option (List Text)
  pub marshal_binary : PeerId → Option Text
  pub peer_codec : Codec Peer
  pub function_codec : Codec FunctionRecord

pub record Laws (o : Outside) : Type 0 where
  pub get-set :
      (key val other : Text) (db : o.Database)
      → (o.set key val db).0 ≡ true
      → o.get other (o.set key val db).1 ≡ (if key == other then found val else o.get other db)
  pub get-delete :
      (key other : Text) (db : o.Database)
      → (o.delete key db).0 ≡ true
      → o.get other (o.delete key db).1 ≡ (if key == other then not_found else o.get other db)
  pub new_iter_lists :
      (lower : Text) (upper : Option Text) (db : o.Database) (keys : List Text)
      → o.new_iter lower upper db ≡ some keys
      → (key : Text)
      → In key keys
        ↔ (((val : Text) × (o.get key db ≡ found val)) × (within lower upper key ≡ true))
  pub marshal_binary_injective :
      (a b : PeerId) (bytes : Text)
      → o.marshal_binary a ≡ some bytes
      → o.marshal_binary b ≡ some bytes
      → a ≡ b
  pub peer_codec_reads :
      (p : Peer) (val : Text)
      → o.peer_codec.marshal p ≡ some val
      → o.peer_codec.unmarshal val ≡ some p
  pub function_codec_reads :
      (f : FunctionRecord) (val : Text)
      → o.function_codec.marshal f ≡ some val
      → o.function_codec.unmarshal val ≡ some f
