-- ===== src/Executor/Command/ReadBack.antt =====
-- A reading of the arguments, as the runtime's own command line reads them, gives back what was asked.
use b7s.Common.{
  ℕ, ◌<◌, Bool, true, false, List, [], ◌∷◌, ◌++◌, map, select, not, Option, none, some, ◌==◌,
  nat_beq, if◌then◌else◌, ◌≡◌, refl, ap, ◌∙◌, arith, Bool-cases, inl, inr,
}
use Prim.Native.Nat.{◌^◌}
use mathlib.Core.List.{append_assoc, append-nil}
use b7s.Common.Text.{Text, text_eq, text_beq, codes}
use b7s.Models.{Parameter, RuntimeConfig, ExecuteRequest}
use b7s.Executor.Decimal.{decimal, read_digits, read_digits-decimal}
use b7s.Executor.Paths.{RequestPaths}
use b7s.Executor.Command.{
  flag, text_flag, number_flag, bool_flag, permission_flags, runtime_flags, ExecutorConfig,
  function_arguments, create_cmd,
}

abbrev read_option : Text → Text → RuntimeConfig → RuntimeConfig
read_option name val cfg =
    if name == codes "--entry"
    then record cfg { entry = val }
    else if name == codes "--run-time"
    then record cfg { execution_time = read_digits val 0 }
    else if name == codes "--fs-root-path"
    then record cfg { fs_root = val }
    else if name == codes "--drivers-root-path"
    then record cfg { drivers_root_path = val }
    else if name == codes "--limited-fuel"
    then record cfg { fuel = read_digits val 0 }
    else if name == codes "--limited-memory"
    then record cfg { memory = read_digits val 0 }
    else if name == codes "--runtime-logger"
    then record cfg { logger = val }
    else cfg

abbrev read_permission : Text → Text → List Text → List Text
read_permission name val permissions =
    if name == codes "--permission" then permissions ++ val ∷ [] else permissions

-- The configuration, the permissions, and the arguments after `--`.
abbrev pub Reading : Type 0
Reading = RuntimeConfig × List Text × List Text

unfoldable pub read_flags : List Text → RuntimeConfig → List Text → Option Reading
read_flags [] cfg permissions = none
read_flags (name ∷ []) cfg permissions =
    if name == codes "--" then some (cfg, permissions, []) else none
read_flags (name ∷ val ∷ rest) cfg permissions =
    let switched = read_flags (val ∷ rest) (record cfg { debug_info = true }) permissions in
    let set = read_flags rest (read_option name val cfg) (read_permission name val permissions) in
    if name == codes "--"
    then some (cfg, permissions, val ∷ rest)
    else if name == codes "--debug-info"
    then switched
    else set

abbrev config : Text → ℕ → Bool → Text → Text → ℕ → ℕ → Text → RuntimeConfig
config entry time debug root drivers fuel memory logger = record {
  entry = entry;
  execution_time = time;
  debug_info = debug;
  fuel = fuel;
  memory = memory;
  logger = logger;
  drivers_root_path = drivers;
  input = [];
  fs_root = root;
}

-- The input is the first argument, and the rest is flags.
unfoldable pub read_arguments : List Text → Option (Text × Reading)
read_arguments [] = none
read_arguments (input ∷ args) = elim (read_flags args (config [] 0 false [] [] 0 0 []) []) [
  | none ↦ none
  | some reading ↦ some (input, reading)
]

module _ (rest ps : List Text) where
  -- A flag that is left out where its value is zero, over the field that it sets.
  read_text :
      (name : Text) (set : Text → RuntimeConfig) (v : Text)
      → ((val : Text)
          → read_flags (flag name ∷ val ∷ rest) (set []) ps ≡ read_flags rest (set val) ps)
      → read_flags (text_flag name v rest) (set []) ps ≡ read_flags rest (set v) ps
  read_text name set [] step = refl
  read_text name set (b ∷ v) step = step (b ∷ v)

  zero_of : (v : ℕ) → nat_beq v 0 ≡ true → 0 ≡ v
  zero_of v y = ground arith

  read_number :
      (name : Text) (set : ℕ → RuntimeConfig) (v : ℕ)
      → v < 2 ^ 64
      → ((val : Text)
          → read_flags (flag name ∷ val ∷ rest) (set 0) ps
            ≡ read_flags rest (set (read_digits val 0)) ps)
      → read_flags (number_flag name v rest) (set 0) ps ≡ read_flags rest (set v) ps
  read_number name set v h step = elim (Bool-cases (nat_beq v 0)) [
    | inl y ↦ rw y (ap (λ n. read_flags rest (set n) ps) (zero_of v y))
    | inr n ↦
        rw n (step (decimal v) ∙ ap (λ n. read_flags rest (set n) ps) (read_digits-decimal v h))
  ]

module _ (ps : List Text) where
  read_switch :
      (set : Bool → RuntimeConfig) (rest : List Text) (v : Bool)
      → record (set false) { debug_info = true } ≡ set true
      → read_flags (bool_flag (codes "debug-info") v rest) (set false) ps
        ≡ read_flags rest (set v) ps
  unfolding read_flags text_beq
  read_switch set rest false h = refl
  read_switch set [] true h = refl
  read_switch set (val ∷ rest) true h = ap (λ c. read_flags (val ∷ rest) c ps) h

read_permissions :
    (cfg : RuntimeConfig) (args permissions ps : List Text)
    → read_flags (permission_flags permissions (codes "--" ∷ args)) cfg ps
      ≡ some (cfg, ps ++ permissions, args)
unfolding read_flags text_beq
read_permissions cfg [] [] ps = rw (append-nil ps) refl
read_permissions cfg (arg ∷ args) [] ps = rw (append-nil ps) refl
read_permissions cfg args (p ∷ permissions) ps =
    read_permissions cfg args permissions (ps ++ p ∷ [])
    ∙ ap (λ x. some (cfg, x, args)) (append_assoc ps (p ∷ []) permissions)

-- The values of the numeric options fit their type, uint64.
abbrev pub IsSized : RuntimeConfig → Type 0
IsSized c = (c.execution_time < 2 ^ 64) × (c.fuel < 2 ^ 64) × (c.memory < 2 ^ 64)

read_flags-runtime_flags :
    (e : Text) (t : ℕ) (d : Bool) (r dr : Text) (f m : ℕ) (l : Text) (input : Text)
    (permissions args : List Text)
    → IsSized (config e t d r dr f m l)
    → read_flags
        (runtime_flags
          (record (config e t d r dr f m l) { input = input })
          permissions
          (codes "--" ∷ args))
        (config [] 0 false [] [] 0 0 [])
        []
      ≡ some (config e t d r dr f m l, permissions, args)
unfolding runtime_flags read_flags text_beq
read_flags-runtime_flags e t d r dr f m l input permissions args (ht, hf, hm) =
    read_text _ [] (codes "entry") (λ x. config x 0 false [] [] 0 0 []) e (λ val. refl)
    ∙ read_number _ [] (codes "run-time") (λ x. config e x false [] [] 0 0 []) t ht (λ val. refl)
    ∙ read_switch [] (λ x. config e t x [] [] 0 0 []) _ d refl
    ∙ read_text _ [] (codes "fs-root-path") (λ x. config e t d x [] 0 0 []) r (λ val. refl)
    ∙ read_text _ [] (codes "drivers-root-path") (λ x. config e t d r x 0 0 []) dr (λ val. refl)
    ∙ read_number _ [] (codes "limited-fuel") (λ x. config e t d r dr x 0 []) f hf (λ val. refl)
    ∙ read_number _ [] (codes "limited-memory") (λ x. config e t d r dr f x []) m hm (λ val. refl)
    ∙ read_text _ [] (codes "runtime-logger") (λ x. config e t d r dr f m x) l (λ val. refl)
    ∙ read_permissions (config e t d r dr f m l) args permissions []

read_arguments-cons :
    (input : Text) (args : List Text) (reading : Reading)
    → read_flags args (config [] 0 false [] [] 0 0 []) [] ≡ some reading
    → read_arguments (input ∷ args) ≡ some (input, reading)
unfolding read_arguments
read_arguments-cons input args reading h = rw (read_arguments, h) refl

-- The values that are not empty, in their order.
abbrev pub given : List Parameter → List Text
given params = select (λ v. not (v == [])) (map (λ param. param.value) params)

function_arguments-given : (params : List Parameter) → function_arguments params ≡ given params
unfolding function_arguments select
function_arguments-given [] = refl
function_arguments-given (param ∷ params) = ground (arith, function_arguments-given params)

-- If the numbers of the request fit a uint64: the arguments of the command, read one flag after
-- another, are the input file of the paths, every option of the request, but with the file system
-- root of the paths and the drivers of the executor in place of those of the request, the
-- permissions in their order, and after `--` the values of the parameters, but for the empty ones.
pub read_arguments-create_cmd :
    (cfg : ExecutorConfig) (own_environment : List Text) (paths : RequestPaths)
    (req : ExecuteRequest)
    → IsSized req.config.runtime
    → read_arguments (create_cmd cfg own_environment paths req).args
      ≡ some (
        paths.input,
        (
          record {
            entry = req.config.runtime.entry;
            execution_time = req.config.runtime.execution_time;
            debug_info = req.config.runtime.debug_info;
            fuel = req.config.runtime.fuel;
            memory = req.config.runtime.memory;
            logger = req.config.runtime.logger;
            drivers_root_path = cfg.drivers_root_path;
            input = [];
            fs_root = paths.fs_root;
          },
          req.config.permissions,
          given req.parameters,
        ),
      )
unfolding create_cmd
read_arguments-create_cmd cfg own_environment paths req h =
    let c = req.config.runtime in
    let asked =
      config c.entry c.execution_time c.debug_info paths.fs_root cfg.drivers_root_path c.fuel
        c.memory c.logger in
    read_arguments-cons paths.input _ _ (
      read_flags-runtime_flags c.entry c.execution_time c.debug_info paths.fs_root
        cfg.drivers_root_path c.fuel c.memory c.logger paths.input req.config.permissions
        (function_arguments req.parameters) h
      ∙ ap (λ args. some (asked, req.config.permissions, args))
          (function_arguments-given req.parameters))
