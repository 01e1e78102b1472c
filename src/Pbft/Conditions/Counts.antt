-- ===== src/Pbft/Conditions/Counts.antt =====
-- What `prepared` and `committed` (consensus/pbft/conditions.go) look at.
use b7s.Common.{ℕ, true, ◌≡◌, ◌≤◌, ◌+◌, ◌*◌, ◌↔◌, arith, length, some, Option-cases, inl, inr}
use b7s.Common.Text.{Text, text_eq, text_beq_iff}
use b7s.Common.Map.{lookup}
use b7s.Pbft.Core.{get_message_id, message_id_eq, commit_quorum, prepare_quorum}
use b7s.Pbft.Message.{Request, PrePrepare}
use b7s.Pbft.State.{Replica, PrepareReceipts, CommitReceipts}
use b7s.Pbft.Conditions.{pre_prepared, prepared, committed}

-- The parts of the condition, each by itself.
abbrev pub IsCommitted : Replica → ℕ → ℕ → Text → Type 0
IsCommitted r view sequence digest =
    let id = get_message_id view sequence in
    ((req : Request) × (lookup digest r.requests ≡ some req))
    × ((pp : PrePrepare) × (lookup id r.pre_prepares ≡ some pp) × (pp.digest ≡ digest))
    × ((ps : PrepareReceipts) × (lookup id r.prepares ≡ some ps) × (2 * r.f ≤ length ps.m))
    × ((cs : CommitReceipts) × (lookup id r.commits ≡ some cs) × (2 * r.f + 1 ≤ length cs.m))

to_committed :
    (r : Replica) (view sequence : ℕ) (digest : Text)
    → IsCommitted r view sequence digest
    → committed r view sequence digest ≡ true
unfolding committed prepared pre_prepared commit_quorum prepare_quorum
to_committed r view sequence digest ((req, a), (pp, b, c), (ps, d, e), (cs, f, g)) =
    ground (arith, text_beq_iff pp.digest digest)

of_committed :
    (r : Replica) (view sequence : ℕ) (digest : Text)
    → committed r view sequence digest ≡ true
    → IsCommitted r view sequence digest
unfolding committed prepared pre_prepared commit_quorum prepare_quorum
of_committed r view sequence digest h =
    let id = get_message_id view sequence in
    elim (Option-cases (lookup digest r.requests)) [
      | inl e ↦ absurd (ground arith)
      | inr (req, e) ↦ elim (Option-cases (lookup id r.pre_prepares)) [
        | inl f ↦ absurd (ground arith)
        | inr (pp, f) ↦ elim (Option-cases (lookup id r.prepares)) [
          | inl g ↦ absurd (ground arith)
          | inr (ps, g) ↦ elim (Option-cases (lookup id r.commits)) [
            | inl k ↦ absurd (ground arith)
            | inr (cs, k) ↦ (
              (req, e),
              (pp, f, ground (arith, text_beq_iff pp.digest digest)),
              (ps, g, ground arith),
              (cs, k, ground arith),
            )
          ]
        ]
      ]
    ]

-- A request is committed at a view and sequence number exactly when it is among the requests seen,
-- the pre-prepare there has its digest, and there are at least 2f prepares and 2f + 1 commits,
-- whatever the digests of these are.
pub committed_iff :
    (r : Replica) (view sequence : ℕ) (digest : Text)
    → (committed r view sequence digest ≡ true) ↔ IsCommitted r view sequence digest
committed_iff r view sequence digest =
    (of_committed r view sequence digest, to_committed r view sequence digest)
