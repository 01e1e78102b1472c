-- ===== src/Executor/Command.antt =====
-- The command line, the environment and the execution of a function (executor/runtime_flags.go,
-- executor/command.go, executor/execute_function.go, with the flag names of models/execute/runtime.go).
pub mod ReadBack
use b7s.Common.{
  ℕ, Bool, true, false, List, [], ◌∷◌, ◌++◌, map, select, not, Option, none, some, ◌==◌, nat_eq,
  nat_beq, if◌then◌else◌,
}
use b7s.Common.Text.{Text, text_eq, codes}
use b7s.Models.{Parameter, RuntimeConfig, RuntimeOutput, ExecuteRequest, ExecuteResult}
use b7s.Models.Code
use b7s.Executor.Decimal.{decimal}
use b7s.Executor.Paths.{RequestPaths, generate_request_paths}
use b7s.Common.Path.{join}

abbrev pub flag : Text → Text
flag name = codes "--" ++ name

-- A flag with a value, unless the value is empty.
abbrev pub text_flag : Text → Text → List Text → List Text
text_flag name [] rest = rest
text_flag name (b ∷ val) rest = flag name ∷ (b ∷ val) ∷ rest

abbrev pub number_flag : Text → ℕ → List Text → List Text
number_flag name val rest = if nat_beq val 0 then rest else flag name ∷ decimal val ∷ rest

abbrev pub bool_flag : Text → Bool → List Text → List Text
bool_flag name false rest = rest
bool_flag name true rest = flag name ∷ rest

abbrev pub permission_flags : List Text → List Text → List Text
permission_flags [] rest = rest
permission_flags (permission ∷ permissions) rest =
    flag (codes "permission") ∷ permission ∷ permission_flags permissions rest

-- The flags, with `rest` after them.
unfoldable pub runtime_flags : RuntimeConfig → List Text → List Text → List Text
runtime_flags cfg permissions rest = text_flag (codes "entry") cfg.entry (
    number_flag (codes "run-time") cfg.execution_time (
      bool_flag (codes "debug-info") cfg.debug_info (
        text_flag (codes "fs-root-path") cfg.fs_root (
          text_flag (codes "drivers-root-path") cfg.drivers_root_path (
            number_flag (codes "limited-fuel") cfg.fuel (
              number_flag (codes "limited-memory") cfg.memory (
                text_flag (codes "runtime-logger") cfg.logger
                  (permission_flags permissions rest))))))))

pub record ExecutorConfig : Type 0 where
  pub work_dir : Text
  pub runtime_dir : Text
  pub executable_name : Text
  pub drivers_root_path : Text

-- `exec.Cmd`, as far as it is set.
pub record Cmd : Type 0 where
  pub path : Text
  pub args : List Text
  pub dir : Text
  pub stdin : Option Text
  pub env : List Text

-- The values of the parameters, but for the empty ones.
unfoldable pub function_arguments : List Parameter → List Text
function_arguments [] = []
function_arguments (param ∷ params) =
    let rest = function_arguments params in if param.value == [] then rest else param.value ∷ rest

abbrev pub variable : Parameter → Text
variable v = v.name ++ b'=' ∷ v.value

-- `strings.Join(names, ";")`.
unfoldable pub join_names : List Parameter → Text
join_names [] = []
join_names (v ∷ []) = v.name
join_names (v ∷ w ∷ rest) = v.name ++ b';' ∷ join_names (w ∷ rest)

abbrev pub environment : List Text → List Parameter → List Text
environment own vars =
    own ++ (map variable vars ++ (codes "BLS_LIST_VARS=" ++ join_names vars) ∷ [])

-- What the runtime gets of the configuration.
abbrev pub effective : ExecutorConfig → RequestPaths → RuntimeConfig → RuntimeConfig
effective cfg paths runtime = record runtime {
  input = paths.input;
  fs_root = paths.fs_root;
  drivers_root_path = cfg.drivers_root_path;
}

-- The environment of the node is an argument.
unfoldable pub create_cmd : ExecutorConfig → List Text → RequestPaths → ExecuteRequest → Cmd
create_cmd cfg own_environment paths req =
    let runtime = effective cfg paths req.config.runtime in
    record {
      path = join (cfg.runtime_dir ∷ cfg.executable_name ∷ []);
      args =
          runtime.input
          ∷ runtime_flags runtime req.config.permissions
              (codes "--" ∷ function_arguments req.parameters);
      dir = paths.workdir;
      stdin = req.config.stdin;
      env = environment own_environment req.config.environment;
    }

-- The output, the usage and whether there was an error.
pub record Ran : Type 0 where
  pub output : RuntimeOutput
  pub usage : Text
  pub good : Bool

-- What the file system and the operating system do. An error of the removal is only logged.
pub record Machine : Type 0 where
  pub own_environment : List Text
  pub makes_directory : Text → Bool
  pub run_command : Cmd → Ran

-- What is done to the file system, in order.
pub data FileAction : Type 0 where
  made ran_in removed : Text → FileAction

abbrev pub no_output : RuntimeOutput
no_output = record { stdout = []; stderr = []; exit_code = []; log = [] }

unfoldable pub execute_function_in :
    ExecutorConfig → Machine → Text → ExecuteRequest → Ran × List FileAction
execute_function_in cfg machine request_id req =
    let paths = generate_request_paths cfg.work_dir request_id req.function_id req.method in
    let ran = machine.run_command (create_cmd cfg machine.own_environment paths req) in
    if machine.makes_directory paths.workdir
    then (
      if ran.good then ran else record ran { usage = [] },
      made paths.workdir ∷ ran_in paths.workdir ∷ removed paths.workdir ∷ [],
    )
    else (record { output = no_output; usage = []; good = false }, [])

-- `ExecuteFunction`: the result, and whether there was an error.
unfoldable pub execute_function :
    ExecutorConfig → Machine → Text → ExecuteRequest → ExecuteResult × Bool
execute_function cfg machine request_id req =
    let (ran, actions) = execute_function_in cfg machine request_id req in
    (
      record {
        code = if ran.good then Code.ok else Code.error;
        result = ran.output;
        usage = ran.usage;
      },
      ran.good,
    )
