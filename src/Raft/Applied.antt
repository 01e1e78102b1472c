-- ===== src/Raft/Applied.antt =====
-- What a replica does with the log.
use b7s.Common.{List, [], ◌∷◌, ◌++◌, none, some, ◌≡◌, refl, ap, sym, ◌∙◌, Option-cases, inl, inr}
use mathlib.Core.List.{append_assoc}
use b7s.Common.Text.{Text}
use b7s.Models.{PeerId, ExecuteResult, ExecuteResponse, NodeResult}
use b7s.Node.Results.{ResultMap}
use b7s.Node.Work.{Traces}
use b7s.Raft.{LogEntry, RaftEnv, answer, send_fn, cache_fn, process, apply, apply_all}

-- What the JSON form of an entry carries: all but the input file and the file system root.
abbrev pub carried : LogEntry → LogEntry
carried entry = record entry {
  execute = record entry.execute {
    config = record entry.execute.config {
      runtime = record entry.execute.config.runtime { input = []; fs_root = [] };
    };
  };
}

-- The entries of a log and their payloads, each decoded to what it carries.
abbrev pub IsLogOf : RaftEnv → List LogEntry → List Text → Type 0
IsLogOf env [] [] = Unit
IsLogOf env (entry ∷ entries) (payload ∷ payloads) =
    (env.marshal entry ≡ some payload)
    × (env.unmarshal payload ≡ some (carried entry))
    × IsLogOf env entries payloads
IsLogOf env _ _ = ⊥

-- For each entry that is executed one item, the newest first.
abbrev pub for_executed :
    {A : Type 0} → RaftEnv → (LogEntry → ExecuteResult → A) → List LogEntry → List A
for_executed env item [] = []
for_executed env item (entry ∷ entries) =
    for_executed env item entries
    ++ (elim (env.execute_function entry.request_id (carried entry).execute) [
      | none ↦ []
      | some res ↦ item entry res ∷ []
    ])

-- The result of one node, with its metadata.
abbrev pub result_of : ExecuteResult → Text → NodeResult
result_of res metadata = record {
  result = res;
  signature = [];
  pbft = record { view = 0; request_timestamp = 0; replica = [] };
  metadata = metadata;
}

abbrev pub metadata_of : RaftEnv → LogEntry → ExecuteResult → Text
metadata_of env entry res = elim (env.metadata (carried entry).execute res.result) [
  | none ↦ []
  | some meta ↦ meta
]

-- To the origin, the code and the result under the name of this node.
abbrev pub sent_for : RaftEnv → LogEntry → ExecuteResult → PeerId × ExecuteResponse
sent_for env entry res = (
  entry.origin,
  record {
    trace_info = [];
    request_id = entry.request_id;
    code = res.code;
    results = (env.own, result_of res (metadata_of env entry res)) ∷ [];
    cluster = record { main = []; peers = [] };
    error_message = [];
  },
)

abbrev pub cached_for : RaftEnv → LogEntry → ExecuteResult → Text × ResultMap
cached_for env entry res = (entry.request_id, (env.own, result_of res []) ∷ [])

module _ (env : RaftEnv) where
  apply-carried :
      (entry : LogEntry) (payload : Text) (traces : Traces)
      → env.unmarshal payload ≡ some (carried entry)
      → ((apply env payload traces).1.sent
          ≡ for_executed env (sent_for env) (entry ∷ []) ++ traces.sent)
        × ((apply env payload traces).1.cached
            ≡ for_executed env (cached_for env) (entry ∷ []) ++ traces.cached)
  unfolding apply process send_fn cache_fn answer
  apply-carried entry payload traces m =
      elim (Option-cases (env.execute_function entry.request_id (carried entry).execute)) [
        | inl n ↦ rw (apply, m, n) (refl, refl)
        | inr (res, e) ↦ rw (apply, m, e) (refl, refl)
      ]

  add-one :
      {A : Type 0} (item : LogEntry → ExecuteResult → A) (entry : LogEntry)
      (entries : List LogEntry) (before now after : List A)
      → now ≡ for_executed env item (entry ∷ []) ++ before
      → after ≡ for_executed env item entries ++ now
      → after ≡ for_executed env item (entry ∷ entries) ++ before
  add-one item entry entries before now after n a =
      a
      ∙ ap (λ t. for_executed env item entries ++ t) n
      ∙ sym
          (append_assoc (for_executed env item entries) (for_executed env item (entry ∷ [])) before)

-- If each payload of a log is the encoding of its entry and is decoded to what that carries: a
-- replica that applies the payloads sends to the origin of each entry that is executed one
-- response, with the request ID, the code of the result, and the result with its metadata under
-- the name of the replica; it caches the result, without metadata, by the request; both in the
-- order of the log, and nothing for the other entries.
pub apply_all-IsLogOf :
    (env : RaftEnv) (entries : List LogEntry) (payloads : List Text) (traces : Traces)
    → IsLogOf env entries payloads
    → ((apply_all env payloads traces).sent
        ≡ for_executed env (sent_for env) entries ++ traces.sent)
      × ((apply_all env payloads traces).cached
          ≡ for_executed env (cached_for env) entries ++ traces.cached)
unfolding apply_all
apply_all-IsLogOf env [] [] traces i = (refl, refl)
apply_all-IsLogOf env [] (payload ∷ payloads) traces i = absurd i
apply_all-IsLogOf env (entry ∷ entries) [] traces i = absurd i
apply_all-IsLogOf env (entry ∷ entries) (payload ∷ payloads) traces i =
    let one = apply-carried env entry payload traces i.1 in
    let rest = apply_all-IsLogOf env entries payloads (apply env payload traces).1 i.2 in
    (
      add-one env (sent_for env) entry entries traces.sent _ _ one.0 rest.0,
      add-one env (cached_for env) entry entries traces.cached _ _ one.1 rest.1,
    )
