-- ===== src/Pbft/Receipts.antt =====
-- The receipts of prepares, commits and view changes under the functions that record them.
pub mod Genuine
pub mod Kept
use b7s.Common.{
  ℕ, ◌≡◌, Option, none, some, ◌==◌, ◌&&◌, if◌then◌else◌, arith, nat_eq, nat_beq_iff, Bool-cases,
  Option-cases, inl, inr,
}
use b7s.Common.Text.{text_eq, text_beq_iff}
use b7s.Common.Map.{Map, lookup, insert, has, lookup-insert}
use b7s.Models.{PeerId}
use b7s.Pbft.Core.{MessageId, message_id_eq, message_id_beq_iff, get_message_id}
use b7s.Pbft.Message.{Prepare, Commit, ViewChange}
use b7s.Pbft.State.{Replica}
use b7s.Pbft.Prepare.{prepares_at, record_prepare_receipt}
use b7s.Pbft.Commit.{commits_at, record_commit_receipt}
use b7s.Pbft.ViewChange.{view_changes_at, record_view_change_receipt}

-- The receipt of a peer at a place, if there is one.
abbrev pub prepare_of : Replica → MessageId → PeerId → Option Prepare
prepare_of r id p = lookup p (prepares_at (lookup id r.prepares)).m

abbrev pub commit_of : Replica → MessageId → PeerId → Option Commit
commit_of r id p = lookup p (commits_at (lookup id r.commits)).m

abbrev pub view_change_of : Replica → ℕ → PeerId → Option ViewChange
view_change_of r view p = lookup p (view_changes_at (lookup view r.view_changes)).m

-- The value that is there already, or the new one.
abbrev pub first {ℓ} : {A : Type ℓ} → Option A → A → Option A
first none a = some a
first (some old) a = some old

lookup-keep :
    {V : Type 0} (k j : PeerId) (v : V) (m : Map PeerId V)
    → lookup j (if has (lookup k m) then m else insert k v m)
      ≡ (if k == j then first (lookup j m) v else lookup j m)
lookup-keep k j v m = elim (Bool-cases (k == j)) [
  | inl e ↦ elim (Option-cases (lookup k m)) [
    | inl f ↦ ground (arith, lookup-insert k j v m, text_beq_iff k j)
    | inr (w, f) ↦ ground (arith, text_beq_iff k j)
  ]
  | inr e ↦ elim (Option-cases (lookup k m)) [
    | inl f ↦ ground (arith, lookup-insert k j v m)
    | inr (w, f) ↦ ground arith
  ]
]

commit_of-record :
    (replica : PeerId) (c : Commit) (r : Replica) (id : MessageId) (p : PeerId)
    → commit_of (record_commit_receipt replica c r) id p ≡ (
        if (get_message_id c.view c.sequence_number == id) && (replica == p)
        then first (commit_of r id p) c
        else commit_of r id p)
unfolding record_commit_receipt
commit_of-record replica c r id p =
    let old = commits_at (lookup (get_message_id c.view c.sequence_number) r.commits) in
    let kept = record old {
      m = if has (lookup replica old.m) then old.m else insert replica c old.m;
    } in
    ground (
      arith,
      message_id_beq_iff (get_message_id c.view c.sequence_number) id,
      lookup-insert (get_message_id c.view c.sequence_number) id kept r.commits,
      lookup-keep replica p c old.m,
      Bool-cases (has (lookup replica old.m)),
    )

prepare_of-record :
    (replica : PeerId) (c : Prepare) (r : Replica) (id : MessageId) (p : PeerId)
    → prepare_of (record_prepare_receipt replica c r) id p ≡ (
        if (get_message_id c.view c.sequence_number == id) && (replica == p)
        then first (prepare_of r id p) c
        else prepare_of r id p)
unfolding record_prepare_receipt
prepare_of-record replica c r id p =
    let old = prepares_at (lookup (get_message_id c.view c.sequence_number) r.prepares) in
    let kept = record old {
      m = if has (lookup replica old.m) then old.m else insert replica c old.m;
    } in
    ground (
      arith,
      message_id_beq_iff (get_message_id c.view c.sequence_number) id,
      lookup-insert (get_message_id c.view c.sequence_number) id kept r.prepares,
      lookup-keep replica p c old.m,
      Bool-cases (has (lookup replica old.m)),
    )

view_change_of-record :
    (replica : PeerId) (c : ViewChange) (r : Replica) (id : ℕ) (p : PeerId)
    → view_change_of (record_view_change_receipt replica c r) id p ≡ (
        if (c.view == id) && (replica == p)
        then first (view_change_of r id p) c
        else view_change_of r id p)
unfolding record_view_change_receipt
view_change_of-record replica c r id p =
    let old = view_changes_at (lookup c.view r.view_changes) in
    let kept = record old {
      m = if has (lookup replica old.m) then old.m else insert replica c old.m;
    } in
    ground (
      arith,
      nat_beq_iff c.view id,
      lookup-insert c.view id kept r.view_changes,
      lookup-keep replica p c old.m,
      Bool-cases (has (lookup replica old.m)),
    )

-- A prepare, a commit or a view change is recorded under its own view and sequence number and its
-- sender; where a receipt of that sender is there already it stays, and no other receipt changes.
pub receipts_first_kept :
    (replica p : PeerId) (r : Replica) (id : MessageId) (view : ℕ)
    → ((m : Prepare)
        → prepare_of (record_prepare_receipt replica m r) id p ≡ (
            if (get_message_id m.view m.sequence_number == id) && (replica == p)
            then first (prepare_of r id p) m
            else prepare_of r id p))
      × ((m : Commit)
          → commit_of (record_commit_receipt replica m r) id p ≡ (
              if (get_message_id m.view m.sequence_number == id) && (replica == p)
              then first (commit_of r id p) m
              else commit_of r id p))
      × ((m : ViewChange)
          → view_change_of (record_view_change_receipt replica m r) view p ≡ (
              if (m.view == view) && (replica == p)
              then first (view_change_of r view p) m
              else view_change_of r view p))
receipts_first_kept replica p r id view = (
  λ m. prepare_of-record replica m r id p,
  λ m. commit_of-record replica m r id p,
  λ m. view_change_of-record replica m r view p,
)
