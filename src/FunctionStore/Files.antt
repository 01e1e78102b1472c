-- ===== src/FunctionStore/Files.antt =====
-- fstore/path.go, fstore/http.go and fstore/record.go; and checkFunctionFiles of fstore/sync.go.
pub mod Relative
use b7s.Common.{ℕ, Bool, true, false, [], ◌∷◌, Option, none, some, if◌then◌else◌}
use b7s.Common.Text.{Text, has_prefix}
use b7s.Common.Hex.{decode}
use b7s.Common.Outcome.{Outcome, ok, err}
use b7s.Common.Path.{join, clean_any}
use b7s.Models.{FunctionManifest, FunctionRecord}
use b7s.Store.Records.{StoreError}
use b7s.FunctionStore.Outside.{Outside, Stat, present, absent, stat_failed}
use b7s.FunctionStore.World.{State, mkdir_all, retrieve, record_function}

-- `strings.TrimPrefix`.
unfoldable pub after_prefix : Text → Text → Text
after_prefix [] s = s
after_prefix (b ∷ prefix) [] = []
after_prefix (b ∷ prefix) (a ∷ s) = after_prefix prefix s

unfoldable pub trim_prefix : Text → Text → Text
trim_prefix s prefix = if has_prefix prefix s then after_prefix prefix s else s

abbrev pub both_found : Stat → Stat → Option (Bool × Bool)
both_found stat_failed _ = none
both_found _ stat_failed = none
both_found present present = some (true, true)
both_found present absent = some (true, false)
both_found absent present = some (false, true)
both_found absent absent = some (false, false)

module _ (o : Outside) where
  -- Relative to the working directory.
  unfoldable pub clean_path : Text → Text
  clean_path path = clean_any (trim_prefix path o.workdir)

  -- The file of the archive.
  unfoldable pub download : Text → FunctionManifest → State o → Option Text × State o
  download cid manifest s =
      let fdir = join (o.workdir ∷ cid ∷ []) in
      let (made, within) = mkdir_all o fdir s in
      if made
      then elim (decode manifest.deployment.checksum) [
        | none ↦ (none, within)
        | some sum ↦
            let (file, after) = o.grab fdir manifest.deployment.uri sum within.0 in
            (file, (after, within.1))
      ]
      else (none, within)

  unfoldable pub save_function : FunctionRecord → State o → Bool × State o
  save_function fn = record_function o (record fn {
    archive = clean_path fn.archive;
    files = clean_path fn.files;
    manifest = record fn.manifest {
      deployment = record fn.manifest.deployment { file = clean_path fn.manifest.deployment.file };
    };
    updated_at = o.now;
  })

  -- The time of the retrieval is noted in the background; whether that succeeds is only logged.
  unfoldable pub get_function : Text → State o → Outcome StoreError FunctionRecord × State o
  get_function cid s = elim (retrieve o cid s) [
    | err e ↦ (err e, s)
    | ok function ↦
        (ok function, (record_function o (record function { last_retrieved = o.now }) s).1)
  ]

  -- Whether the archive is there and the files are there; `none` is an error.
  unfoldable pub check_function_files : FunctionRecord → o.Disk → Option (Bool × Bool)
  check_function_files fn d =
      both_found (o.stat (join (o.workdir ∷ fn.archive ∷ [])) d)
        (o.stat (join (o.workdir ∷ fn.files ∷ [])) d)
