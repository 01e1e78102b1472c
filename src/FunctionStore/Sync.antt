-- ===== src/FunctionStore/Sync.antt =====
-- fstore/sync.go.
pub mod Unpacked
pub mod Restored
use b7s.Common.{Bool, true, false, List, [], ◌∷◌, Option, none, some, if◌then◌else◌}
use b7s.Common.Text.{Text}
use b7s.Common.Outcome.{Outcome, ok, err}
use b7s.Common.Path.{join}
use b7s.Models.{FunctionRecord}
use b7s.Store.Records.{retrieve_functions}
use b7s.FunctionStore.Outside.{Outside}
use b7s.FunctionStore.World.{State, unpack}
use b7s.FunctionStore.Files.{clean_path, download, save_function, check_function_files}

pub data SyncError : Type 0 where
  not_verified not_downloaded not_unpacked not_saved not_listed : SyncError

-- The errors of functions, each with its CID.
abbrev pub Failures : Type 0
Failures = List (Text × SyncError)

module _ (o : Outside) where
  abbrev pub Synced : Type 0
  Synced = Outcome SyncError (Unit {0}) × State o

  -- The archive is there.
  unfoldable pub unpack_and_save : FunctionRecord → State o → Synced
  unpack_and_save fn s =
      let files = join (o.workdir ∷ fn.cid ∷ []) in
      let (good, unpacked) = unpack o (join (o.workdir ∷ fn.archive ∷ [])) files s in
      if good
      then (let (saved, after) = save_function o (record fn { files = files }) unpacked in
          (if saved then ok tt else err not_saved, after))
      else (err not_unpacked, unpacked)

  unfoldable pub download_again : FunctionRecord → State o → Synced
  download_again fn s =
      let (path, after) = download o fn.cid fn.manifest s in
      elim path [
        | none ↦ (err not_downloaded, after)
        | some file ↦ unpack_and_save (record fn { archive = clean_path o file }) after
      ]

  unfoldable pub sync : FunctionRecord → State o → Synced
  sync fn s = elim (check_function_files o fn s.0) [
    | none ↦ (err not_verified, s)
    | some (true, true) ↦ (ok tt, s)
    | some (true, false) ↦ unpack_and_save fn s
    | some (false, _) ↦ download_again fn s
  ]

  unfoldable pub sync_each : Bool → List FunctionRecord → State o → Failures × State o
  sync_each halt_on_error [] s = ([], s)
  sync_each halt_on_error (fn ∷ functions) s =
      let (res, after) = sync fn s in
      let rest = sync_each halt_on_error functions after in
      elim res [
        | ok _ ↦ rest
        | err e ↦
            if halt_on_error then ((fn.cid, e) ∷ [], after) else ((fn.cid, e) ∷ rest.0, rest.1)
      ]

  -- The first is `Sync`'s own error.
  unfoldable pub sync_all : Bool → State o → Outcome SyncError Failures × State o
  sync_all halt_on_error s = elim (retrieve_functions o.store s.1) [
    | err e ↦ (err not_listed, s)
    | ok functions ↦
        let (failures, after) = sync_each halt_on_error functions s in (ok failures, after)
  ]
