-- ===== src/Store/View/Steps.antt =====
-- A command that succeeds does to the view what it should, and reads answer by the view.
use b7s.Common.{some, ◌≡◌, ◌≢◌, inl, inr, if◌then◌else◌, arith, Option-cases, ◌==◌}
use b7s.Common.Text.{Text, text_eq}
use b7s.Common.Outcome.{ok}
use b7s.Models.{PeerId}
use b7s.Store.Key.{encode_key, add_segments}
use b7s.Store.Database.{Outside, Codec, found, not_found, Laws}
use b7s.Store.Records.{save, remove}
use b7s.Store.View.{peer_key, function_key}

module _ (o : Outside) (l : Laws o) where
  pub save_inversion :
      {V : Type 0} (codec : Codec V) (key : Text) (v : V) (db after : o.Database)
      → save o codec key v db ≡ (ok tt, after)
      → (val : Text) × (codec.marshal v ≡ some val)
        × ((other : Text)
            → o.get other after ≡ (if key == other then found val else o.get other db))
  unfolding save
  save_inversion codec key v db after h = elim (Option-cases (codec.marshal v)) [
    | inl n ↦ ground arith
    | inr (val, e) ↦ (val, e, λ other. ground (arith, l.get-set key val other db))
  ]

  pub remove_inversion :
      (key : Text) (db after : o.Database)
      → remove o key db ≡ (ok tt, after)
      → (other : Text) → o.get other after ≡ (if key == other then not_found else o.get other db)
  unfolding remove
  remove_inversion key db after h other = ground (arith, l.get-delete key other db)

  pub peer_key_injective :
      (a b : PeerId) (key : Text) → peer_key o a ≡ some key → peer_key o b ≡ some key → a ≡ b
  unfolding encode_key add_segments
  peer_key_injective a b key p q = elim (Option-cases (o.marshal_binary a)) [
    | inl n ↦ ground arith
    | inr (s, e) ↦ elim (Option-cases (o.marshal_binary b)) [
      | inl n ↦ ground arith
      | inr (t, f) ↦ l.marshal_binary_injective a b s e (ground arith)
    ]
  ]

  pub function_key_injective :
      (a b : Text) (key : Text) → function_key o a ≡ some key → function_key o b ≡ some key → a ≡ b
  unfolding encode_key add_segments
  function_key_injective a b key p q = cc

  pub peer_key-function_key : (id : PeerId) (cid : Text) → peer_key o id ≢ function_key o cid
  unfolding encode_key add_segments
  peer_key-function_key id cid h = elim (Option-cases (o.marshal_binary id)) [
    | inl n ↦ ground arith
    | inr (s, e) ↦ ground arith
  ]
