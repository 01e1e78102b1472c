-- ===== src/Node/Aggregate/Groups.antt =====
-- The aggregates and the groups of equal outputs.
use b7s.Common.{
  ℕ, ◌*◌, ◌≤◌, ◌≡◌, ◌⊎◌, List, [], ◌∷◌, ◌++◌, Option, none, some, length, length-append,
  if◌then◌else◌, arith, inl, inr, refl, ap, sym, ◌∙◌, In, ◌==◌, Bool-cases, nat_eq,
}
use b7s.Common.Text.{Text, text_eq}
use b7s.Common.Map.{Map, lookup, insert, lookup-insert}
use b7s.Common.Map.Count.{Distinct}
use b7s.Common.Map.Values.{lookup-In, insert-Distinct, In-lookup}
use b7s.Models.{PeerId, RuntimeOutput}
use b7s.Pbft.Messaging.{is_empty}
use b7s.Node.Results.{ResultMap, output_eq, output_beq_iff}
use b7s.Node.Aggregate.Sorting.{IsSorted, sort-In, sort-IsSorted}
use b7s.Node.Aggregate.{
  ResultStats, Aggregate, stats_or_new, count_result, stats_of, aggregate_of, aggregates_of,
  aggregate,
}

-- The peers with an output, the last first, and their metadata.
unfoldable pub peers_with : RuntimeOutput → ResultMap → List PeerId
peers_with output [] = []
peers_with output ((peer, res) ∷ rest) =
    let peers = peers_with output rest in
    if res.result.result == output then peers ++ (peer ∷ []) else peers

unfoldable pub metadata_with : RuntimeOutput → ResultMap → Map PeerId Text
metadata_with output [] = []
metadata_with output ((peer, res) ∷ rest) =
    let metadata = metadata_with output rest in
    if res.result.result == output
    then if is_empty res.metadata then metadata else insert peer res.metadata metadata
    else metadata

abbrev pub group : RuntimeOutput → ResultMap → Aggregate
group output results = record {
  result = output;
  peers = peers_with output results;
  frequency = (100 * length (peers_with output results), length results);
  metadata = metadata_with output results;
}

unfoldable stats_with : RuntimeOutput → ResultMap → Option ResultStats
stats_with output [] = none
stats_with output ((peer, res) ∷ rest) =
    let stats = stats_with output rest in
    if res.result.result == output then some (count_result peer res (stats_or_new stats)) else stats

lookup-stats_of :
    (output : RuntimeOutput) (results : ResultMap)
    → lookup output (stats_of results) ≡ stats_with output results
unfolding stats_of stats_with lookup
lookup-stats_of output [] = refl
lookup-stats_of output ((peer, res) ∷ rest) = ground (
  arith,
  lookup-insert res.result.result output
      (count_result peer res (stats_or_new (lookup res.result.result (stats_of rest))))
      (stats_of rest),
  output_beq_iff res.result.result output,
  lookup-stats_of output rest,
)

stats_with_group :
    (output : RuntimeOutput) (results : ResultMap)
    → let stat = stats_or_new (stats_with output results) in
      (stat.peers ≡ peers_with output results)
      × (stat.seen ≡ length (peers_with output results))
      × (stat.metadata ≡ metadata_with output results)
unfolding stats_with peers_with metadata_with
stats_with_group output [] = (refl, refl, refl)
stats_with_group output ((peer, res) ∷ rest) =
    let (a, b, c) = stats_with_group output rest in
    elim (Bool-cases (res.result.result == output)) [
      | inl e ↦ rw e (
        ground (arith, a),
        ground (arith, b, length-append (peers_with output rest) (peer ∷ [])),
        ground (arith, c),
      )
      | inr e ↦ rw e (a, b, c)
    ]

stats_with_cases :
    (output : RuntimeOutput) (results : ResultMap)
    → ((stats_with output results ≡ none) × (peers_with output results ≡ []))
      ⊎ ((stat : ResultStats) × (stats_with output results ≡ some stat)
          × (1 ≤ length (peers_with output results)))
unfolding stats_with peers_with
stats_with_cases output [] = inl (refl, refl)
stats_with_cases output ((peer, res) ∷ rest) = elim (Bool-cases (res.result.result == output)) [
  | inl e ↦ inr (
    count_result peer res (stats_or_new (stats_with output rest)),
    ground (arith, e),
    ground (arith, e, length-append (peers_with output rest) (peer ∷ [])),
  )
  | inr e ↦ elim (stats_with_cases output rest) [
    | inl (a, b) ↦ inl (ground (arith, e, a), ground (arith, e, b))
    | inr (stat, a, b) ↦ inr (stat, ground (arith, e, a), ground (arith, e, b))
  ]
]

stats_of-Distinct : (results : ResultMap) → Distinct (stats_of results)
unfolding stats_of
stats_of-Distinct [] = tt
stats_of-Distinct ((peer, res) ∷ rest) =
    insert-Distinct res.result.result _ (stats_of rest) (stats_of-Distinct rest)

aggregates_of-In :
    (total : ℕ) (m : Map RuntimeOutput ResultStats) (a : Aggregate)
    → In a (aggregates_of total m)
    → (e : RuntimeOutput × ResultStats) × In e m × (a ≡ aggregate_of total e.0 e.1)
unfolding aggregates_of
aggregates_of-In total [] a i = absurd i
aggregates_of-In total (e ∷ m) a (inl q) = (e, inl refl, q)
aggregates_of-In total (e ∷ m) a (inr i) =
    let (f, j, q) = aggregates_of-In total m a i in (f, inr j, q)

In-aggregates_of :
    (total : ℕ) (m : Map RuntimeOutput ResultStats) (k : RuntimeOutput) (v : ResultStats)
    → In (k, v) m
    → In (aggregate_of total k v) (aggregates_of total m)
unfolding aggregates_of
In-aggregates_of total [] k v i = absurd i
In-aggregates_of total (e ∷ m) k v (inl q) =
    inl (ap (λ (x : RuntimeOutput × ResultStats). aggregate_of total x.0 x.1) q)
In-aggregates_of total (e ∷ m) k v (inr i) = inr (In-aggregates_of total m k v i)

to_group :
    (results : ResultMap) (k : RuntimeOutput) (stat : ResultStats)
    → stats_with k results ≡ some stat
    → aggregate_of (length results) k stat ≡ group k results
to_group results k stat e = ground (arith, e, stats_with_group k results)

of_group :
    (results : ResultMap) (output : RuntimeOutput)
    → 1 ≤ length (peers_with output results)
    → In (group output results) (aggregate results)
unfolding aggregate
of_group results output h = elim (stats_with_cases output results) [
  | inl (a, b) ↦ absurd (ground (arith, b, h))
  | inr (stat, a, b) ↦
      (sort-In (group output results) (aggregates_of (length results) (stats_of results))).1 (
        rw (← to_group results output stat a) (
          In-aggregates_of (length results) (stats_of results) output stat
            (lookup-In output stat (stats_of results) (lookup-stats_of output results ∙ a))))
]

group_of :
    (results : ResultMap) (a : Aggregate)
    → In a (aggregate results)
    → (a ≡ group a.result results) × (1 ≤ length a.peers)
unfolding aggregate
group_of results a i =
    let m = stats_of results in
    let ((k, stat), j, q) =
      aggregates_of-In (length results) m a ((sort-In a (aggregates_of (length results) m)).0 i) in
    let known : stats_with k results ≡ some stat =
      sym (lookup-stats_of k results) ∙ In-lookup k stat m (stats_of-Distinct results) j in
    let g : a ≡ group k results = q ∙ to_group results k stat known in
    (
      g ∙ ap (λ o. group o results) (sym (ap (λ (x : Aggregate). x.result) g)),
      elim (stats_with_cases k results) [
        | inl (x, y) ↦ absurd (ground (arith, x, known))
        | inr (x, y, n) ↦ rw g n
      ],
    )

-- The aggregates of a map of results are, for each output that a peer sent, the group of all peers
-- that sent it, with their metadata and their share; and no aggregate is followed by one of a higher
-- frequency.
pub aggregate_groups :
    (results : ResultMap)
    → IsSorted (aggregate results)
      × ((a : Aggregate)
          → In a (aggregate results)
          → (a ≡ group a.result results) × (1 ≤ length a.peers))
      × ((output : RuntimeOutput)
          → 1 ≤ length (peers_with output results)
          → In (group output results) (aggregate results))
unfolding aggregate
aggregate_groups results = (
  sort-IsSorted (aggregates_of (length results) (stats_of results)),
  group_of results,
  of_group results,
)
