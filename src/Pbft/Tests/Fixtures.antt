-- ===== src/Pbft/Tests/Fixtures.antt =====
-- A cluster of four replicas, and an outside that delivers every message.
use b7s.Common.{ℕ, List, [], ◌∷◌, Bool, true, false, none, some, if◌then◌else◌, ltb}
use b7s.Common.Text.{Text}
use b7s.Models.{PeerId, ExecuteResult, zero_config}
use b7s.Pbft.Message.{
  Payload, message, execute_request, node_result, execute_response, Request, PrePrepare, Prepare,
  Commit, PrepareInfo, ViewChange, no_base,
}
use b7s.Pbft.Config.{default_config}
use b7s.Pbft.State.{Replica, new_state}
use b7s.Pbft.Action.{Env}

-- A text of one byte for each kind of value; every signature is the byte 7.
abbrev pub tag : Payload → Text
tag (message m) = 1 ∷ []
tag (execute_request e) = 2 ∷ []
tag (node_result r) = 3 ∷ []
tag (execute_response r) = 4 ∷ []

abbrev pub is_seven : Text → Bool
is_seven (b ∷ []) = if ltb b 7 then false else if ltb 7 b then false else true
is_seven _ = false

abbrev pub output : ExecuteResult
output = record {
  code = [];
  result = record { stdout = 5 ∷ []; stderr = []; exit_code = []; log = [] };
  usage = [];
}

abbrev pub env : Env
env = record {
  marshal = λ p. some (tag p);
  sha256 = λ t. t;
  sign_bytes = λ t. some (7 ∷ []);
  extract_public_key = λ p. some p;
  verify_bytes = λ key payload sig. some (is_seven sig);
  delivers = λ h p t. true;
  trace_info = λ h. [];
  execute_function = λ h id e. output;
}

-- The hexadecimal form of the byte 7, and of the byte 1, which is the digest of every message.
abbrev pub seven : Text
seven = 48 ∷ 55 ∷ []

abbrev pub digest : Text
digest = 48 ∷ 49 ∷ []

abbrev pub alice : PeerId
alice = 1 ∷ []

abbrev pub bob : PeerId
bob = 2 ∷ []

abbrev pub carol : PeerId
carol = 3 ∷ []

abbrev pub dave : PeerId
dave = 4 ∷ []

abbrev pub client : PeerId
client = 9 ∷ []

abbrev pub cluster : List PeerId
cluster = alice ∷ bob ∷ carol ∷ dave ∷ []

-- A replica as it is created, by its identity.
abbrev pub replica_of : PeerId → Replica
replica_of id = record {
  core = record { n = 4; f = 1; sequence = 0; view = 0 };
  state = new_state;
  cfg = default_config;
  request_timer = none;
  id = id;
  peers = cluster;
  byzantine = false;
  history = [];
}

abbrev pub job : Request
job = record {
  base = no_base;
  id = 20 ∷ [];
  timestamp = 3;
  origin = client;
  execute = record {
    function_id = 30 ∷ [];
    method = 31 ∷ [];
    parameters = [];
    config = zero_config;
    signature = seven;
  };
}

abbrev pub proposal : ℕ → ℕ → PrePrepare
proposal view sequence = record {
  base = no_base;
  view = view;
  sequence_number = sequence;
  digest = digest;
  request = job;
  signature = seven;
}

abbrev pub prepare_for : ℕ → ℕ → Text → Prepare
prepare_for view sequence d = record {
  base = no_base;
  view = view;
  sequence_number = sequence;
  digest = d;
  signature = seven;
}

abbrev pub commit_for : ℕ → ℕ → Text → Commit
commit_for view sequence d = record {
  base = no_base;
  view = view;
  sequence_number = sequence;
  digest = d;
  signature = seven;
}

abbrev pub certificate : ℕ → ℕ → PrepareInfo
certificate view sequence = record {
  view = view;
  sequence_number = sequence;
  digest = digest;
  pre_prepare = proposal view sequence;
  prepares =
      (bob, prepare_for view sequence digest) ∷ (carol, prepare_for view sequence digest) ∷ [];
}

abbrev pub change_to : ℕ → List PrepareInfo → ViewChange
change_to view infos = record { base = no_base; view = view; prepares = infos; signature = seven }
