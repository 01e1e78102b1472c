-- ===== src/FunctionStore/Sync/Unpacked.antt =====
-- A record that is saved after its archive is unpacked.
use b7s.Common.{Bool, true, false, List, [], ◌∷◌, ◌==◌, ◌≡◌, refl, sym, ap, subst, ◌∙◌, All, arith}
use b7s.Common.Text.{Text, text_eq, has_prefix}
use b7s.Common.Outcome.{ok}
use b7s.Common.Path.{render, join}
use b7s.Common.Path.Place.{IsPlain, render-not_empty}
use b7s.Models.{FunctionRecord}
use b7s.FunctionStore.Outside.{Outside, present, Laws}
use b7s.FunctionStore.World.{State, unpack, retrieve, record_function}
use b7s.FunctionStore.World.Kept.{unpack_keeps, unpack-present, record_function-retrieve}
use b7s.FunctionStore.Files.{clean_path, save_function, get_function, check_function_files}
use b7s.FunctionStore.Files.Relative.{
  clean_path-under, clean_path-relative, join-relative, join-cid,
}
use b7s.FunctionStore.Install.{is_installed}
use b7s.FunctionStore.Sync.{unpack_and_save}

module _ (o : Outside) where
  -- There is a record for the CID, and the archive and the files that it names are on the disk.
  abbrev pub IsComplete : Text → State o → Type 0
  IsComplete cid s =
      (fn : FunctionRecord) × (retrieve o cid s ≡ ok fn)
      × (o.stat (join (o.workdir ∷ fn.archive ∷ [])) s.0 ≡ present)
      × (o.stat (join (o.workdir ∷ fn.files ∷ [])) s.0 ≡ present)

  pub IsComplete-is_installed :
      (cid : Text) (s : State o) → IsComplete cid s → is_installed o cid s ≡ ok true
  unfolding is_installed get_function check_function_files record_function
  IsComplete-is_installed cid s (fn, r, a, f) =
      rw (is_installed, get_function, r, get_function, r, check_function_files, a, f) refl

module _ (o : Outside) (l : Laws o) where
  abbrev pub files : FunctionRecord → Text
  files fn = join (o.workdir ∷ fn.cid ∷ [])

  abbrev unpacked : FunctionRecord → State o → Bool × State o
  unpacked fn s = unpack o (join (o.workdir ∷ fn.archive ∷ [])) (files fn) s

  abbrev saved : FunctionRecord → State o → Bool × State o
  saved fn s = save_function o (record fn { files = files fn }) (unpacked fn s).1

  unpack_and_save-ok :
      (fn : FunctionRecord) (s after : State o)
      → unpack_and_save o fn s ≡ (ok tt, after)
      → ((unpacked fn s).0 ≡ true) × ((saved fn s).0 ≡ true) × (after ≡ (saved fn s).1)
  unfolding unpack_and_save
  unpack_and_save-ok fn s after h = ground arith

  module _ (last : Text) (earlier : List Text) (w : o.workdir ≡ render (last ∷ earlier))
      (plain : All IsPlain (last ∷ earlier)) where
    files-given : (fn : FunctionRecord) → IsPlain fn.cid → (files fn == []) ≡ false
    files-given fn p =
        ap (λ t. t == []) (join-cid o last earlier w plain fn.cid p)
        ∙ render-not_empty fn.cid (last ∷ earlier)

    -- The directory of the files, as it is looked up after it is saved.
    join-files :
        (fn : FunctionRecord)
        → IsPlain fn.cid
        → join (o.workdir ∷ clean_path o (files fn) ∷ []) ≡ files fn
    join-files fn p =
        let at = join-cid o last earlier w plain fn.cid p in
        ap (λ t. join (o.workdir ∷ t ∷ []))
          (ap (clean_path o) at ∙ clean_path-under o last earlier w plain fn.cid [] (p, tt))
        ∙ join-relative o last earlier w plain fn.cid [] (p, tt)
        ∙ sym at

    archive-same :
        (fn : FunctionRecord) (name : Text)
        → IsPlain fn.cid
        → IsPlain name
        → fn.archive ≡ render (name ∷ fn.cid ∷ [])
        → has_prefix o.workdir (render (name ∷ fn.cid ∷ [])) ≡ false
        → clean_path o fn.archive ≡ fn.archive
    archive-same fn name p q e n =
        ap (clean_path o) e
        ∙ clean_path-relative o last earlier w plain name (fn.cid ∷ []) (q, (p, tt)) n
        ∙ sym e

    pub unpack_and_save-IsComplete :
        (fn : FunctionRecord) (name : Text) (s after : State o)
        → IsPlain fn.cid
        → IsPlain name
        → fn.archive ≡ render (name ∷ fn.cid ∷ [])
        → has_prefix o.workdir (render (name ∷ fn.cid ∷ [])) ≡ false
        → o.stat (join (o.workdir ∷ fn.archive ∷ [])) s.0 ≡ present
        → unpack_and_save o fn s ≡ (ok tt, after)
        → IsComplete o fn.cid after
    unfolding save_function record_function
    unpack_and_save-IsComplete fn name s after p q e n a h =
        let (good, save_good, same) = unpack_and_save-ok fn s after h in
        let here = join (o.workdir ∷ fn.archive ∷ []) in
        let disk = (unpacked fn s).1.0 in
        subst (IsComplete o fn.cid) (sym same) (
          _,
          record_function-retrieve o l _ (unpacked fn s).1 save_good,
          ap (λ t. o.stat (join (o.workdir ∷ t ∷ [])) disk) (archive-same fn name p q e n)
              ∙ unpack_keeps o l here (files fn) here s a,
          ap (λ t. o.stat t disk) (join-files fn p)
              ∙ unpack-present o l here (files fn) s (files-given fn p) good,
        )
