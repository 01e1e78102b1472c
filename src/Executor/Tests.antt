-- ===== src/Executor/Tests.antt =====
-- The executor at concrete inputs.
use b7s.Common.{select, [], ◌∷◌, true, some, ◌≡◌, refl, arith}
use b7s.Common.Text.{text_beq, codes}
use b7s.Models.{ExecuteRequest, zero_config}
use b7s.Executor.Decimal.{decimal, digits}
use b7s.Common.Path.{split_from, enter, resolve, render, clean, join_parts, join}
use b7s.Common.Path.Place.{IsPlain, place}
use b7s.Executor.Paths.{generate_request_paths}
use b7s.Executor.Paths.Inside.{generate_request_paths-place}
use b7s.Executor.Command.{ExecutorConfig, create_cmd, join_names}
use b7s.Executor.Command.ReadBack.{read_arguments, read_arguments-create_cmd}

decimal_test : decimal 120 ≡ codes "120"
unfolding decimal digits
decimal_test = refl

paths_test :
    (generate_request_paths (codes "/w") (codes "r") (codes "f") (codes "m")).fs_root
    ≡ codes "/w/t/r/fs"
unfolding generate_request_paths join join_parts clean split_from resolve enter render text_beq
paths_test = refl

-- A request ID that is not plain leads out of the directory for requests, here to that of the functions.
above_test :
    (generate_request_paths (codes "/w") (codes "../f") (codes "f") (codes "m")).workdir
    ≡ codes "/w/f"
unfolding generate_request_paths join join_parts clean split_from resolve enter render text_beq
above_test = refl

plain : IsPlain (codes "r")
unfolding text_beq
plain = record { no_slash = (refl, tt); not_empty = refl; not_here = refl; not_above = refl }

generate_request_paths-place_example :
    (place (generate_request_paths (codes "/w") (codes "r") (codes "f") (codes "m")).workdir
      ≡ codes "r" ∷ codes "t" ∷ place (codes "/w"))
    × (place (generate_request_paths (codes "/w") (codes "r") (codes "f") (codes "m")).fs_root
        ≡ codes "fs" ∷ codes "r" ∷ codes "t" ∷ place (codes "/w"))
unfolding text_beq
generate_request_paths-place_example =
    generate_request_paths-place (codes "/w") (codes "r") (codes "f") (codes "m") refl plain

abbrev executor : ExecutorConfig
executor = record {
  work_dir = codes "/w";
  runtime_dir = codes "/bin";
  executable_name = codes "bls";
  drivers_root_path = codes "/bin/extensions";
}

abbrev job : ExecuteRequest
job = record {
  function_id = codes "f";
  method = codes "m";
  parameters =
      record { name = codes "a"; value = codes "1" } ∷ record { name = codes "b"; value = [] } ∷ [];
  config = record zero_config {
    runtime = record zero_config.runtime { fuel = 120; debug_info = true };
    environment =
        record { name = codes "X"; value = codes "1" }
        ∷ record { name = codes "Y"; value = [] }
        ∷ [];
    permissions = codes "net" ∷ [];
  };
  signature = [];
}

environment_test :
    (create_cmd executor []
      (generate_request_paths (codes "/w") (codes "r") (codes "f") (codes "m"))
      job).env
    ≡ codes "X=1" ∷ codes "Y=" ∷ codes "BLS_LIST_VARS=X;Y" ∷ []
unfolding create_cmd join_names
environment_test = refl

read_arguments-create_cmd_example :
    read_arguments
      (create_cmd executor []
        (generate_request_paths (codes "/w") (codes "r") (codes "f") (codes "m"))
        job).args
    ≡ some (
      (generate_request_paths (codes "/w") (codes "r") (codes "f") (codes "m")).input,
      (
        record job.config.runtime {
          input = [];
          fs_root =
              (generate_request_paths (codes "/w") (codes "r") (codes "f") (codes "m")).fs_root;
          drivers_root_path = codes "/bin/extensions";
        },
        codes "net" ∷ [],
        codes "1" ∷ [],
      ),
    )
unfolding select text_beq
read_arguments-create_cmd_example =
    read_arguments-create_cmd executor []
      (generate_request_paths (codes "/w") (codes "r") (codes "f") (codes "m")) job
      (omega arith, omega arith, omega arith)
