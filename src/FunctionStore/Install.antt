-- ===== src/FunctionStore/Install.antt =====
-- fstore/install.go and fstore/deployment.go.
use b7s.Common.{Bool, true, false, [], ◌∷◌, Option, none, some, ◌==◌, ◌&&◌, if◌then◌else◌}
use b7s.Common.Text.{Text, text_eq}
use b7s.Common.Outcome.{Outcome, ok, err}
use b7s.Common.Path.{join}
use b7s.Models.{FunctionManifest, FunctionRecord}
use b7s.Store.Records.{StoreError, record_not_found}
use b7s.FunctionStore.Outside.{Outside, Url}
use b7s.FunctionStore.World.{State, unpack}
use b7s.FunctionStore.Files.{download, save_function, get_function, check_function_files}

pub data InstallError : Type 0 where
  no_manifest bad_deployment not_downloaded not_unpacked : InstallError
  not_retrieved not_verified : InstallError

-- `ErrNotFound`.
abbrev pub is_missing : StoreError → Bool
is_missing record_not_found = true
is_missing _ = false

module _ (o : Outside) where
  unfoldable pub fill_in : Url → Url → Url
  fill_in deployment source = record deployment {
    host = if deployment.host == [] then source.host else deployment.host;
    scheme = if deployment.scheme == [] then source.scheme else deployment.scheme;
  }

  -- The rest of the deployment is empty.
  unfoldable pub deployed_from : FunctionManifest → Url → FunctionManifest
  deployed_from manifest url = record manifest {
    deployment = record {
      cid = [];
      checksum = manifest.runtime.checksum;
      uri = o.url_string url;
      methods = [];
      aggregation = [];
      nodes = 0;
      file = [];
    };
  }

  unfoldable pub update_deployment_info : FunctionManifest → Text → Option FunctionManifest
  update_deployment_info manifest address = elim (o.parse_url manifest.runtime.url) [
    | none ↦ none
    | some deployment ↦ elim (o.parse_url address) [
      | none ↦ none
      | some source ↦ some (deployed_from manifest (fill_in deployment source))
    ]
  ]

  -- The manifest that is installed from.
  unfoldable pub manifest_from : Text → Outcome InstallError FunctionManifest
  manifest_from address = elim (o.get_json address) [
    | none ↦ err no_manifest
    | some manifest ↦
        if manifest.runtime.url == []
        then ok manifest
        else elim (update_deployment_info manifest address) [
          | none ↦ err bad_deployment
          | some updated ↦ ok updated
        ]
  ]

  abbrev pub installed : Text → Text → FunctionManifest → Text → FunctionRecord
  installed address cid manifest path = record {
    cid = cid;
    url = address;
    manifest = record manifest { deployment = record manifest.deployment { file = path } };
    archive = path;
    files = join (o.workdir ∷ cid ∷ []);
    updated_at = 0;
    last_retrieved = 0;
  }

  -- A record that cannot be saved is no error.
  unfoldable pub unpack_and_record :
      Text → Text → FunctionManifest → Text → State o → Outcome InstallError (Unit {0}) × State o
  unpack_and_record address cid manifest path s =
      let (good, after) = unpack o path (join (o.workdir ∷ cid ∷ [])) s in
      if good
      then (ok tt, (save_function o (installed address cid manifest path) after).1)
      else (err not_unpacked, after)

  unfoldable pub install : Text → Text → State o → Outcome InstallError (Unit {0}) × State o
  install address cid s = elim (manifest_from address) [
    | err e ↦ (err e, s)
    | ok manifest ↦
        let (path, after) = download o cid manifest s in
        elim path [
          | none ↦ (err not_downloaded, after)
          | some file ↦ unpack_and_record address cid manifest file after
        ]
  ]

  unfoldable pub is_installed : Text → State o → Outcome InstallError Bool
  is_installed cid s =
      let (found, after) = get_function o cid s in
      elim found [
        | err e ↦ if is_missing e then ok false else err not_retrieved
        | ok fn ↦ elim (check_function_files o fn after.0) [
          | none ↦ err not_verified
          | some (have_archive, have_files) ↦ ok (have_archive && have_files)
        ]
      ]
