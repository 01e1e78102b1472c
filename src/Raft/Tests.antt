-- ===== src/Raft/Tests.antt =====
-- The Raft replica at concrete inputs.
use b7s.Common.{true, List, [], ◌∷◌, ◌++◌, none, some, ◌==◌, if◌then◌else◌, ◌≡◌, refl}
use b7s.Common.Text.{Text, text_eq, codes}
use b7s.Models.{ExecuteRequest, zero_config}
use b7s.Node.Work.{Traces, no_result}
use b7s.Raft.{LogEntry, RaftEnv, apply_all}
use b7s.Raft.Applied.{sent_for, cached_for, for_executed, apply_all-IsLogOf}

abbrev job : ExecuteRequest
job = record {
  function_id = codes "f";
  method = codes "m";
  parameters = [];
  config = zero_config;
  signature = [];
}

-- Entries that are known by the ID of their requests.
abbrev entry : Text → LogEntry
entry id = record { request_id = id; origin = codes "alice"; execute = job }

abbrev env : RaftEnv
env = record {
  own = codes "bob";
  marshal = λ e. some e.request_id;
  unmarshal = λ t. some (entry t);
  execute_function = λ id req. if id == codes "1" then some no_result else none;
  metadata = λ req out. some (codes "m");
  is_leader = true;
  commits = λ payload. true;
}

abbrev idle : Traces
idle = record { cached = []; sent = [] }

abbrev log : List LogEntry
log = entry (codes "1") ∷ entry (codes "2") ∷ []

apply_all-IsLogOf_example :
    ((apply_all env (codes "1" ∷ codes "2" ∷ []) idle).sent
      ≡ for_executed env (sent_for env) log ++ [])
    × ((apply_all env (codes "1" ∷ codes "2" ∷ []) idle).cached
        ≡ for_executed env (cached_for env) log ++ [])
apply_all-IsLogOf_example =
    apply_all-IsLogOf env log (codes "1" ∷ codes "2" ∷ []) idle ((refl, refl, (refl, refl, tt)))
