-- ===== src/Node/Head/Orderly.antt =====
-- The order of the head node's messages, and the end of each cluster.
use b7s.Common.{
  true, false, List, [], ◌∷◌, ◌++◌, none, some, ◌≡◌, ◌≢◌, ◌⊎◌, inl, inr, refl, arith, leb,
  if◌then◌else◌,
}
use b7s.Common.Text.{Text}
use b7s.Common.Outcome.{Outcome, ok, Outcome-cases}
use b7s.Models.{PeerId, ExecuteRequest}
use b7s.Models.Code
use b7s.Models.Consensus.{ConsensusType, no_consensus, raft, pbft, consensus_required, is_pbft}
use b7s.Pbft.Action.{Result-cases}
use b7s.Pbft.Signature.{sign_request}
use b7s.Node.RollCall.{reported, execute_roll_call}
use b7s.Node.Cluster.{ClusterError, form_cluster}
use b7s.Node.Head.{
  HeadAction, asked_to_form, asked_to_execute, asked_to_disband, cluster_not_formed, not_signed,
  Finished, HeadEnv, collect, request_execution, execute_on, execute_with, head_execute,
  consensus_of, failed,
}

module _ (env : HeadEnv) (request_id : Text) where
  abbrev pub forms : ConsensusType → List PeerId → Outcome ClusterError (Unit {0})
  forms algo peers =
      form_cluster env.delivers env.peer_text env.confirmations
        (env.cluster_payload request_id peers algo) peers

  -- The messages to the peers that were chosen, and how the execution ended.
  pub data IsOrderly (algo : ConsensusType) (peers : List PeerId) (out : Finished) : Type 0 where
    -- Without consensus there is one message.
    alone :
        consensus_required algo ≡ false
        → out.actions ≡ asked_to_execute peers ∷ []
        → IsOrderly algo peers out
    -- A cluster that was not formed is not asked for anything.
    not_formed :
        consensus_required algo ≡ true
        → forms algo peers ≢ ok tt
        → out.actions ≡ asked_to_form peers ∷ []
        → out.error ≡ some cluster_not_formed
        → IsOrderly algo peers out
    -- A cluster that was formed is disbanded, whatever comes of the execution.
    together :
        consensus_required algo ≡ true
        → forms algo peers ≡ ok tt
        → out.actions ≡ asked_to_form peers ∷ asked_to_execute peers ∷ asked_to_disband peers ∷ []
        → IsOrderly algo peers out
    unsigned :
        algo ≡ pbft
        → forms algo peers ≡ ok tt
        → out.actions ≡ asked_to_form peers ∷ asked_to_disband peers ∷ []
        → out.error ≡ some not_signed
        → IsOrderly algo peers out

  request_execution_actions :
      (algo : ConsensusType) (req signed : ExecuteRequest) (peers : List PeerId)
      (actions : List HeadAction)
      → (request_execution env request_id algo req signed peers actions).actions
        ≡ actions ++ asked_to_execute peers ∷ []
  unfolding request_execution collect
  request_execution_actions algo req signed peers actions = ground arith

  execute_on_actions :
      (algo : ConsensusType) (req : ExecuteRequest) (peers : List PeerId)
      (actions : List HeadAction)
      → ((execute_on env request_id algo req peers actions).actions
          ≡ actions ++ asked_to_execute peers ∷ [])
        ⊎ ((algo ≡ pbft)
            × ((execute_on env request_id algo req peers actions)
                ≡ failed Code.error peers not_signed actions))
  unfolding execute_on
  execute_on_actions no_consensus req peers actions =
      inl (request_execution_actions no_consensus req req peers actions)
  execute_on_actions raft req peers actions =
      inl (request_execution_actions raft req req peers actions)
  execute_on_actions pbft req peers actions = elim (Result-cases (sign_request env.keys req)) [
    | inl (signed, e) ↦ inl (rw e (request_execution_actions pbft req signed peers actions))
    | inr (x, e) ↦ inr (refl, rw e refl)
  ]

  with_cluster :
      (algo : ConsensusType) (req : ExecuteRequest) (peers : List PeerId)
      → consensus_required algo ≡ true
      → IsOrderly algo peers (execute_with env request_id algo req peers)
  unfolding execute_with
  with_cluster algo req peers c = elim (Outcome-cases (forms algo peers)) [
    | inr (e, q) ↦
        not_formed c (λ h. ground arith) (rw (execute_with, c, q) refl)
          (rw (execute_with, c, q) refl)
    | inl (done, q) ↦ elim (execute_on_actions algo req peers (asked_to_form peers ∷ [])) [
      | inl a ↦ together c q (rw (execute_with, c, q, a) refl)
      | inr (k, x) ↦
          unsigned k q (rw (execute_with, c, q, x) refl) (rw (execute_with, c, q, x) refl)
    ]
  ]

  execute_with-IsOrderly :
      (algo : ConsensusType) (req : ExecuteRequest) (peers : List PeerId)
      → IsOrderly algo peers (execute_with env request_id algo req peers)
  unfolding execute_with
  execute_with-IsOrderly no_consensus req peers =
      elim (execute_on_actions no_consensus req peers []) [
        | inl a ↦ alone refl a
        | inr (k, x) ↦ ground arith
      ]
  execute_with-IsOrderly raft req peers = with_cluster raft req peers refl
  execute_with-IsOrderly pbft req peers = with_cluster pbft req peers refl

  -- After the roll call has chosen the peers, the head node asks them in the right order: without
  -- consensus only to execute; with consensus first to form a cluster, and only if that is formed to
  -- execute. A cluster that was formed is asked to disband at the end, also where the
  -- request could not be signed or sent. One that was not formed is asked for nothing more, not
  -- even to disband.
  pub head_execute-IsOrderly :
      (req : ExecuteRequest) (peers : List PeerId)
      → env.published ≡ true
      → execute_roll_call
          (is_pbft (consensus_of env request_id req))
          req.function_id
          (if leb 1 req.config.node_count then some req.config.node_count else none)
          env.events
        ≡ reported peers
      → (out : Finished) × (head_execute env request_id req ≡ some out)
        × IsOrderly (consensus_of env request_id req) peers out
  unfolding head_execute
  head_execute-IsOrderly req peers p r = (
    execute_with env request_id (consensus_of env request_id req) req peers,
    rw (r, p) refl,
    execute_with-IsOrderly (consensus_of env request_id req) req peers,
  )
