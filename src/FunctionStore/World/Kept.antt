-- ===== src/FunctionStore/World/Kept.antt =====
-- What the operations on the file system and the records leave.
use b7s.Common.{true, false, List, [], ◌∷◌, ◌==◌, ◌≡◌, refl, sym, ap, ◌∙◌, Bool-cases, inl, inr}
use b7s.Common.Text.{Text, text_eq, text_beq_iff}
use b7s.Common.Outcome.{ok, Outcome-cases}
use b7s.Models.{FunctionRecord}
use b7s.Store.Key.{encode_key, prefix_function}
use b7s.Store.Records
use b7s.Store.View.Steps.{save_inversion}
use b7s.FunctionStore.Archive.{Touch, make_dir, open_archive, unpack_archive}
use b7s.FunctionStore.Outside.{Outside, present, Laws}
use b7s.FunctionStore.World.{State, is_ok, touch_all, unpack, retrieve, record_function}

clash : false ≡ true → ⊥
clash h = cc

module _ (o : Outside) (l : Laws o) where
  touch_all_keeps :
      (touched : List Touch) (path : Text) (d : o.Disk)
      → o.stat path d ≡ present
      → o.stat path (touch_all o touched d) ≡ present
  unfolding touch_all
  touch_all_keeps [] path d h = h
  touch_all_keeps (t ∷ touched) path d h =
      touch_all_keeps touched path (o.touch t d) (l.touch_keeps t path d h)

  pub unpack_keeps :
      (filename destination path : Text) (s : State o)
      → o.stat path s.0 ≡ present
      → o.stat path (unpack o filename destination s).1.0 ≡ present
  unfolding unpack
  unpack_keeps filename destination path s h = touch_all_keeps _ path s.0 h

  pub unpack-present :
      (filename destination : Text) (s : State o)
      → (destination == []) ≡ false
      → (unpack o filename destination s).0 ≡ true
      → o.stat destination (unpack o filename destination s).1.0 ≡ present
  unfolding unpack unpack_archive touch_all
  unpack-present filename destination s given h =
      elim (Bool-cases ((o.files s.0).makes_dir destination)) [
        | inl y ↦
            rw (given, y)
              (touch_all_keeps (open_archive (o.files s.0) filename destination).1 destination
                (o.touch (make_dir destination) s.0) (l.make_dir_present destination s.0 y))
        | inr n ↦ absurd (clash (sym (refused (rw (given, n) refl)) ∙ h))
      ]
    where
      refused :
          (unpack o filename destination s).0 ≡ false → (unpack o filename destination s).0 ≡ false
      refused e = e

  pub record_function-retrieve :
      (fn : FunctionRecord) (s : State o)
      → (record_function o fn s).0 ≡ true
      → retrieve o fn.cid (record_function o fn s).1 ≡ ok fn
  unfolding record_function retrieve Records.save_function Records.retrieve_function
      Records.retrieve
  record_function-retrieve fn s h = elim (Outcome-cases (Records.save_function o.store fn s.1).0) [
    | inl (_, e) ↦
        let after = (Records.save_function o.store fn s.1).1 in
        let key = encode_key prefix_function (fn.cid ∷ []) in
        let (val, m, g) =
          save_inversion o.store l.store_laws o.store.function_codec key fn s.1 after
            (ap (λ r. (r, after)) e) in
        rw
          (
            Records.retrieve_function,
            Records.retrieve,
            g key,
            (text_beq_iff key key).1 refl,
            l.store_laws.function_codec_reads fn val m,
          )
          refl
    | inr (e, q) ↦ absurd (clash (sym (ap is_ok q) ∙ h))
  ]
