-- ===== src/Node/Results.antt =====
-- The results of an execution that a head node collects (node/execution_results.go). The waiting is
-- not here: each peer has one arrival, its response or none, in the order in which the results take
-- the lock.
pub mod Senders
pub mod Verified
pub mod Direct
pub mod Steps
pub mod Matching
use b7s.Common.{
  ℕ, Bool, true, false, List, [], ◌∷◌, ◌++◌, Option, none, some, ◌≡◌, ◌↔◌, refl, ap, arith, nat_eq,
  nat_beq_iff, leb, if◌then◌else◌, length, ◌==◌, ◌&&◌, Eq,
}
use b7s.Common.Text.{Text, text_eq, text_beq_iff}
use b7s.Common.Map.{Map, lookup, insert}
use b7s.Models.{PeerId, RuntimeOutput, ExecuteResult, NodeResult, PbftResultInfo}
use b7s.Pbft.Core.{min_cluster_results}
use b7s.Pbft.Action.{Env, ok, err}
use b7s.Pbft.Signature.{verify_result}

abbrev pub ResultMap : Type 0
ResultMap = Map PeerId NodeResult

-- `peerResultMapKey`: equal texts are equal outputs and equal timestamps.
pub record ResultKey : Type 0 where
  pub output : RuntimeOutput
  pub timestamp : ℕ

abbrev pub peer_result_map_key : NodeResult → ResultKey
peer_result_map_key res = record {
  output = res.result.result;
  timestamp = res.pbft.request_timestamp;
}

abbrev pub output_beq : RuntimeOutput → RuntimeOutput → Bool
output_beq a b =
    (a.stdout == b.stdout)
    && ((a.stderr == b.stderr) && ((a.exit_code == b.exit_code) && (a.log == b.log)))

pub output_beq_iff : (a b : RuntimeOutput) → (output_beq a b ≡ true) ↔ (a ≡ b)
output_beq_iff a b = ground (
  arith,
  text_beq_iff a.stdout b.stdout,
  text_beq_iff a.stderr b.stderr,
  text_beq_iff a.exit_code b.exit_code,
  text_beq_iff a.log b.log,
)

instance abbrev pub output_eq : Eq RuntimeOutput
output_eq = record { beq = output_beq; beq_iff = output_beq_iff }

abbrev pub key_beq : ResultKey → ResultKey → Bool
key_beq a b = (a.output == b.output) && (a.timestamp == b.timestamp)

pub key_beq_iff : (a b : ResultKey) → (key_beq a b ≡ true) ↔ (a ≡ b)
key_beq_iff a b =
    ground (arith, output_beq_iff a.output b.output, nat_beq_iff a.timestamp b.timestamp)

instance abbrev pub key_eq : Eq ResultKey
key_eq = record { beq = key_beq; beq_iff = key_beq_iff }

-- The results that are equal so far: the first of them, and who sent one.
pub record AggregatedResult : Type 0 where
  pub result : ExecuteResult
  pub peers : List PeerId
  pub metadata : Map PeerId Text

pub record Gathered : Type 0 where
  pub results : Map ResultKey AggregatedResult
  pub out : ResultMap

abbrev pub nothing_gathered : Gathered
nothing_gathered = record { results = []; out = [] }

-- Of a response the result of its sender, if the signature is right.
unfoldable pub accept_result : Env → PeerId → Option ResultMap → Option NodeResult
accept_result env sender none = none
accept_result env sender (some res) = elim (lookup sender res) [
  | none ↦ none
  | some er ↦ elim (env.extract_public_key sender) [
    | none ↦ none
    | some pub_key ↦ elim (verify_result env er pub_key) [ err e ↦ none | ok done ↦ some er ]
  ]
]

-- The metadata that a Go map has under a key, or the zero value.
abbrev pub metadata_of : PeerId → Map PeerId Text → Text
metadata_of peer metadata = elim (lookup peer metadata) [ none ↦ [] | some m ↦ m ]

abbrev pub report_for : AggregatedResult → PeerId → NodeResult
report_for result peer = record {
  result = result.result;
  signature = [];
  pbft = record { view = 0; request_timestamp = 0; replica = [] };
  metadata = metadata_of peer result.metadata;
}

-- The peers with this result go into the output.
unfoldable pub report_all : AggregatedResult → List PeerId → ResultMap → ResultMap
report_all result [] out = out
report_all result (peer ∷ peers) out =
    report_all result peers (insert peer (report_for result peer) out)

abbrev pub first_result : PeerId → NodeResult → AggregatedResult
first_result sender er = record {
  result = er.result;
  peers = sender ∷ [];
  metadata = (sender, er.metadata) ∷ [];
}

abbrev pub another_result : PeerId → NodeResult → AggregatedResult → AggregatedResult
another_result sender er old = record {
  result = old.result;
  peers = old.peers ++ (sender ∷ []);
  metadata = insert sender er.metadata old.metadata;
}

unfoldable pub add_to : ℕ → PeerId → NodeResult → Gathered → Option AggregatedResult → Gathered
add_to count sender er g none = record g {
  results = insert (peer_result_map_key er) (first_result sender er) g.results;
}
add_to count sender er g (some old) =
    let result = another_result sender er old in
    record {
      results = insert (peer_result_map_key er) result g.results;
      out = if leb count (length result.peers) then report_all result result.peers g.out else g.out;
    }

-- What a peer's goroutine does under the lock.
unfoldable pub account_result : ℕ → PeerId → NodeResult → Gathered → Gathered
account_result count sender er g =
    add_to count sender er g (lookup (peer_result_map_key er) g.results)

-- The results in the order of the lock, the last first.
unfoldable pub account_all : ℕ → List (PeerId × NodeResult) → Gathered
account_all count [] = nothing_gathered
account_all count ((sender, er) ∷ earlier) =
    account_result count sender er (account_all count earlier)

abbrev pub accept_one :
    PeerId → Option NodeResult → List (PeerId × NodeResult) → List (PeerId × NodeResult)
accept_one sender none earlier = earlier
accept_one sender (some er) earlier = (sender, er) ∷ earlier

unfoldable pub accepted : Env → List (PeerId × Option ResultMap) → List (PeerId × NodeResult)
accepted env [] = []
accepted env ((sender, response) ∷ earlier) =
    accept_one sender (accept_result env sender response) (accepted env earlier)

unfoldable pub gather_execution_results_pbft :
    Env → List PeerId → List (PeerId × Option ResultMap) → ResultMap
gather_execution_results_pbft env peers arrivals =
    (account_all (min_cluster_results (length peers)) (accepted env arrivals)).out

-- Without PBFT every peer's own result counts.
unfoldable pub gather_execution_results : List (PeerId × Option ResultMap) → ResultMap
gather_execution_results [] = []
gather_execution_results ((peer, none) ∷ earlier) = gather_execution_results earlier
gather_execution_results ((peer, some res) ∷ earlier) =
    let results = gather_execution_results earlier in
    elim (lookup peer res) [ none ↦ results | some exres ↦ insert peer exres results ]
