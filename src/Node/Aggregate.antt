-- ===== src/Node/Aggregate.antt =====
-- The aggregation of results (node/aggregate). A frequency is kept as the fraction of which it is the
-- floating point value, and the order is that of the fractions. The empty text stands for metadata
-- that is nil. Ranges begin with the last entry, since Go leaves the order open.
pub mod Sorting
pub mod Groups
use b7s.Common.{
  ℕ, ◌+◌, ◌*◌, Bool, List, [], ◌∷◌, ◌++◌, Option, none, some, ltb, length, if◌then◌else◌,
}
use b7s.Common.Text.{Text, text_eq}
use b7s.Common.Map.{Map, lookup, insert}
use b7s.Models.{PeerId, RuntimeOutput, NodeResult}
use b7s.Pbft.Messaging.{is_empty}
use b7s.Node.Results.{ResultMap, output_eq}

pub record ResultStats : Type 0 where
  pub seen : ℕ
  pub peers : List PeerId
  pub metadata : Map PeerId Text

-- `Result` of the package.
pub record Aggregate : Type 0 where
  pub result : RuntimeOutput
  pub peers : List PeerId
  -- Of the total, in percent: a numerator and a denominator.
  pub frequency : ℕ × ℕ
  pub metadata : Map PeerId Text

abbrev pub stats_or_new : Option ResultStats → ResultStats
stats_or_new none = record { seen = 0; peers = []; metadata = [] }
stats_or_new (some stat) = stat

abbrev pub count_result : PeerId → NodeResult → ResultStats → ResultStats
count_result peer res stat = record {
  seen = stat.seen + 1;
  peers = stat.peers ++ (peer ∷ []);
  metadata =
      if is_empty res.metadata then stat.metadata else insert peer res.metadata stat.metadata;
}

unfoldable pub stats_of : ResultMap → Map RuntimeOutput ResultStats
stats_of [] = []
stats_of ((peer, res) ∷ rest) =
    let stats = stats_of rest in
    let output = res.result.result in
    insert output (count_result peer res (stats_or_new (lookup output stats))) stats

abbrev pub aggregate_of : ℕ → RuntimeOutput → ResultStats → Aggregate
aggregate_of total res stat = record {
  result = res;
  peers = stat.peers;
  frequency = (100 * stat.seen, total);
  metadata = stat.metadata;
}

unfoldable pub aggregates_of : ℕ → Map RuntimeOutput ResultStats → List Aggregate
aggregates_of total [] = []
aggregates_of total ((res, stat) ∷ rest) = aggregate_of total res stat ∷ aggregates_of total rest

-- The first fraction is the greater one.
abbrev pub more_frequent : ℕ × ℕ → ℕ × ℕ → Bool
more_frequent (a, b) (c, d) = ltb (c * b) (a * d)

-- `sort.SliceStable`, by insertion.
unfoldable pub place : Aggregate → List Aggregate → List Aggregate
place a [] = a ∷ []
place a (b ∷ rest) =
    let later = place a rest in
    if more_frequent b.frequency a.frequency then b ∷ later else a ∷ b ∷ rest

unfoldable pub sort_by_frequency : List Aggregate → List Aggregate
sort_by_frequency [] = []
sort_by_frequency (a ∷ rest) = place a (sort_by_frequency rest)

unfoldable pub aggregate : ResultMap → List Aggregate
aggregate results = sort_by_frequency (aggregates_of (length results) (stats_of results))
