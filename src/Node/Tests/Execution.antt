-- ===== src/Node/Tests/Execution.antt =====
-- Clusters and executions at concrete inputs.
use b7s.Common.{
  NoRepeats, [], ◌∷◌, true, false, Option, none, some, ◌≡◌, refl, ◌↔◌, All, ◌==◌, if◌then◌else◌,
}
use b7s.Common.Text.{Text, text_eq, text_beq, codes}
use b7s.Common.Map.{lookup, insert}
use b7s.Common.Outcome.{ok}
use b7s.Models.{PeerId, ExecuteRequest, zero_config}
use b7s.Models.Code
use b7s.Models.Code.{Code}
use b7s.Models.Consensus.{raft, pbft, to_lower, parse_consensus}
use b7s.Pbft.Config.{noop_provider}
use b7s.Pbft.Process.{new_replica}
use b7s.Pbft.Tests.Fixtures.{env, alice, bob, carol, dave, cluster, output, seven}
use b7s.Node.RollCall.{replied, reported, execute_roll_call, roll_call_loop}
use b7s.Node.Sending.Outcomes.{Reaches}
use b7s.Node.Cluster.{form_cluster}
use b7s.Node.Cluster.Formed.{form_cluster-ok}
use b7s.Node.Cluster.Member.{
  FormCluster, Cluster, Member, Surroundings, process_form_cluster, leave_cluster, join,
  create_pbft_cluster,
}
use b7s.Node.Cluster.Member.LifeCycle.{Serves, leave-process_form_cluster}
use b7s.Node.Head.{HeadEnv, Finished, ExecuteMessage, head_execute, consensus_of}
use b7s.Node.Head.Orderly.{IsOrderly, head_execute-IsOrderly}
use b7s.Node.Work.{WorkEnv, Traces}

abbrev all_joined : PeerId → Option Code
all_joined p = some Code.ok

form_cluster-ok_example :
    (form_cluster (λ p t. true) (λ p. p) all_joined (some seven) cluster ≡ ok tt) ↔ (
      Reaches (λ p t. true) seven cluster
      × All (λ p. all_joined p ≡ some Code.ok) cluster
      × NoRepeats cluster)
form_cluster-ok_example =
    form_cluster-ok (λ p t. true) (λ p. p) all_joined seven cluster (λ a b e. e)

-- A cluster for PBFT, on a worker that has one for Raft.
abbrev surroundings : Surroundings Text
surroundings = record {
  own = bob;
  byzantine = false;
  connected = λ p. p == carol;
  context_trace = [];
  metadata_provider = noop_provider;
  new_raft = λ req. some req.request_id;
  delivers = λ p res. true;
  shuts_down = λ c. true;
}

abbrev formation : FormCluster
formation = record {
  trace_info = [];
  request_id = seven;
  peers = cluster;
  consensus = pbft;
  connection_info = record { id = alice; addrs = [] } ∷ record { id = bob; addrs = [] } ∷ [];
}

abbrev member : Member Text
member = record { clusters = []; peerstore = []; sent = [] }

abbrev formed : Member Text
formed = (process_form_cluster surroundings alice formation member).1

abbrev left : Member Text
left = (leave_cluster surroundings seven formed).1

formed_test : process_form_cluster surroundings alice formation member ≡ (ok tt, formed)
unfolding process_form_cluster join create_pbft_cluster new_replica
formed_test = refl

left_test : leave_cluster surroundings seven formed ≡ (ok tt, left)
unfolding process_form_cluster join create_pbft_cluster new_replica leave_cluster lookup insert
    text_beq
left_test = refl

leave-process_form_cluster_example :
    ((c : Cluster Text) × (lookup seven formed.clusters ≡ some c) × Serves surroundings formation c)
    × ((id : Text)
        → lookup id left.clusters ≡ (if seven == id then none else lookup id member.clusters))
leave-process_form_cluster_example =
    leave-process_form_cluster surroundings alice formation member formed left formed_test left_test

-- A request for PBFT on four nodes, which all answer the roll call.
abbrev job : ExecuteRequest
job = record {
  function_id = seven;
  method = seven;
  parameters = [];
  config = record zero_config { consensus_algorithm = codes "PBFT"; node_count = 4 };
  signature = [];
}

abbrev head : HeadEnv
head = record {
  keys = env;
  default_consensus = raft;
  now = 3;
  published = true;
  events =
      replied alice seven true
      ∷ replied bob seven true
      ∷ replied carol seven true
      ∷ replied dave seven true
      ∷ [];
  peer_text = λ p. p;
  cluster_payload = λ id peers algo. some id;
  confirmations = all_joined;
  execute_payload = λ msg. some seven;
  delivers = λ p t. true;
  arrivals = λ peers. [];
}

roll_call_test :
    (consensus_of head seven job ≡ pbft)
    × (execute_roll_call true seven (some 4) head.events ≡ reported cluster)
unfolding consensus_of parse_consensus to_lower execute_roll_call roll_call_loop text_beq
roll_call_test = (refl, refl)

head_execute-IsOrderly_example :
    (out : Finished) × (head_execute head seven job ≡ some out)
    × IsOrderly head seven (consensus_of head seven job) cluster out
unfolding consensus_of parse_consensus to_lower execute_roll_call roll_call_loop text_beq
head_execute-IsOrderly_example = head_execute-IsOrderly head seven job cluster refl refl

-- A worker that was never asked to form the cluster.
abbrev worker : WorkEnv Text
worker = record {
  own = bob;
  is_installed = λ id. some true;
  execute_function = λ id req. (true, output);
  clusters = [];
  execute_in = λ c from id t req. none;
  metadata = λ req out. none;
  delivers = λ p res. true;
}

abbrev message : ExecuteMessage
message = record { trace_info = []; request = job; topic = []; request_id = seven; timestamp = 3 }

abbrev no_traces : Traces
no_traces = record { cached = []; sent = [] }
