-- ===== src/Pbft/Commit.antt =====
-- consensus/pbft/commit.go.
use b7s.Common.{ℕ, Bool, true, false, [], Option, none, some, if◌then◌else◌, not, ◌==◌, nat_eq}
use b7s.Common.Text.{Text, text_eq}
use b7s.Common.Map.{lookup, insert, has}
use b7s.Models.{PeerId}
use b7s.Pbft.Core.{get_message_id, message_id_eq}
use b7s.Pbft.Message.{Commit, no_base, commit_signable}
use b7s.Pbft.State.{Replica, CommitReceipts, new_commit_receipts}
use b7s.Pbft.Action.{Env, Action, Done, ok, gets, lift, raise_if, modify, ◌>>=◌, ◌>>◌, invalid_view}
use b7s.Pbft.Signature.{sign, verify_signature}
use b7s.Pbft.Messaging.{broadcast}
use b7s.Pbft.Conditions.{prepared, committed}
use b7s.Pbft.Execute.{execute}

abbrev pub commits_at : Option CommitReceipts → CommitReceipts
commits_at none = new_commit_receipts
commits_at (some commits) = commits

-- The first commit of a replica is kept.
unfoldable pub record_commit_receipt : PeerId → Commit → Replica → Replica
record_commit_receipt replica commit r =
    let msg_id = get_message_id commit.view commit.sequence_number in
    let commits = commits_at (lookup msg_id r.commits) in
    let kept : CommitReceipts =
      if has (lookup replica commits.m)
      then commits
      else record { m = insert replica commit commits.m } in
    record r { state = record r.state { commits = insert msg_id kept r.commits } }

unfoldable pub should_send_commit : Replica → ℕ → ℕ → Text → Bool
should_send_commit r view sequence_no digest =
    if prepared r view sequence_no digest
    then elim (lookup (get_message_id view sequence_no) r.commits) [
      | none ↦ true
      | some commits ↦ not (has (lookup r.id commits.m))
    ]
    else false

unfoldable pub send_commit : Env → ℕ → ℕ → Text → Action Done
send_commit env view sequence_no digest = do
  let commit : Commit = record {
    base = no_base;
    view = view;
    sequence_number = sequence_no;
    digest = digest;
    signature = [];
  }
  signed ← lift (sign env commit)
  traced ← broadcast env signed
  modify (λ r. record_commit_receipt r.id traced r)

unfoldable pub execute_if_committed : Env → ℕ → ℕ → Text → Action Done
execute_if_committed env view sequence_no digest r =
    if committed r view sequence_no digest
    then execute env view sequence_no digest r
    else (ok tt, r)

unfoldable pub maybe_send_commit : Env → ℕ → ℕ → Text → Action Done
maybe_send_commit env view sequence_no digest r =
    if should_send_commit r view sequence_no digest
    then (send_commit env view sequence_no digest
          >> execute_if_committed env view sequence_no digest)
        r
    else (ok tt, r)

unfoldable pub process_commit : Env → PeerId → Commit → Action Done
process_commit env replica commit = do
  view ← gets (λ r. r.view)
  raise_if (not (commit.view == view)) invalid_view
  lift (verify_signature env commit replica)
  modify (record_commit_receipt replica commit)
  execute_if_committed env commit.view commit.sequence_number commit.digest
