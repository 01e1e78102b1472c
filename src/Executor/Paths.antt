-- ===== src/Executor/Paths.antt =====
-- The paths of a request (executor/path.go). The working directory of the executor is an absolute path.
pub mod Inside
use b7s.Common.{◌∷◌, []}
use b7s.Common.Text.{Text, codes}
use b7s.Common.Path.{join}

pub record RequestPaths : Type 0 where
  pub workdir : Text
  pub fs_root : Text
  pub input : Text

unfoldable pub generate_request_paths : Text → Text → Text → Text → RequestPaths
generate_request_paths work_dir request_id function_id method =
    let workdir = join (work_dir ∷ codes "t" ∷ request_id ∷ []) in
    record {
      workdir = workdir;
      fs_root = join (workdir ∷ codes "fs" ∷ []);
      input = join (work_dir ∷ function_id ∷ method ∷ []);
    }
