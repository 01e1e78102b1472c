-- ===== src/FunctionStore/World.antt =====
-- The file system and the records, and the operations of Archive and of Store.Records on them.
pub mod Kept
use b7s.Common.{Bool, true, false, List, [], ◌∷◌}
use b7s.Common.Text.{Text}
use b7s.Common.Outcome.{Outcome, ok, err}
use b7s.Models.{FunctionRecord}
use b7s.Store.Records
use b7s.Store.Records.{StoreError}
use b7s.FunctionStore.Archive
use b7s.FunctionStore.Archive.{Touch, make_dir}
use b7s.FunctionStore.Outside.{Outside}

abbrev pub is_ok : {E A : Type 0} → Outcome E A → Bool
is_ok (ok a) = true
is_ok (err e) = false

module _ (o : Outside) where
  abbrev pub State : Type 0
  State = o.Disk × o.store.Database

  unfoldable pub touch_all : List Touch → o.Disk → o.Disk
  touch_all [] d = d
  touch_all (t ∷ touched) d = touch_all touched (o.touch t d)

  unfoldable pub mkdir_all : Text → State → Bool × State
  mkdir_all dir s = ((o.files s.0).makes_dir dir, (o.touch (make_dir dir) s.0, s.1))

  unfoldable pub unpack : Text → Text → State → Bool × State
  unpack filename destination s =
      let (res, touched) = Archive.unpack_archive (o.files s.0) filename destination in
      (is_ok res, (touch_all touched s.0, s.1))

  unfoldable pub retrieve : Text → State → Outcome StoreError FunctionRecord
  retrieve cid s = Records.retrieve_function o.store cid s.1

  unfoldable pub record_function : FunctionRecord → State → Bool × State
  record_function fn s =
      let (res, after) = Records.save_function o.store fn s.1 in (is_ok res, (s.0, after))
