-- ===== src/Pbft/Receipts/Genuine.antt =====
-- The receipts of a replica are from distinct peers of the cluster, and each stands at the view and
-- sequence number that it names.
use b7s.Common.{
  ℕ, List, ◌≡◌, refl, if◌then◌else◌, Bool-cases, Option-cases, inl, inr, ◌⊎◌, arith, In, nat_eq,
}
use b7s.Common.Text.{text_eq}
use b7s.Common.Map.{Map, lookup, insert, has}
use b7s.Common.Map.Values.{Values, IsReceipts, insert-Values, insert-IsReceipts}
use b7s.Models.{PeerId}
use b7s.Pbft.Core.{MessageId, message_id_eq, get_message_id}
use b7s.Pbft.Message.{Prepare, Commit, ViewChange}
use b7s.Pbft.State.{Replica, PrepareReceipts, CommitReceipts, ViewChangeReceipts}
use b7s.Pbft.Commit.{commits_at, record_commit_receipt}
use b7s.Pbft.Prepare.{prepares_at, record_prepare_receipt}
use b7s.Pbft.ViewChange.{view_changes_at, record_view_change_receipt}
use b7s.Pbft.Evolve.{Recorded}

abbrev pub PreparesAt : List PeerId → MessageId → PrepareReceipts → Type 0
PreparesAt peers id rs =
    IsReceipts peers (λ (m : Prepare). get_message_id m.view m.sequence_number ≡ id) rs.m

abbrev pub CommitsAt : List PeerId → MessageId → CommitReceipts → Type 0
CommitsAt peers id rs =
    IsReceipts peers (λ (m : Commit). get_message_id m.view m.sequence_number ≡ id) rs.m

abbrev pub ViewChangesAt : List PeerId → ℕ → ViewChangeReceipts → Type 0
ViewChangesAt peers view rs = IsReceipts peers (λ (m : ViewChange). m.view ≡ view) rs.m

abbrev pub IsGenuine : Replica → Type 0
IsGenuine r =
    In r.id r.peers
    × Values (PreparesAt r.peers) r.prepares
    × Values (CommitsAt r.peers) r.commits
    × Values (ViewChangesAt r.peers) r.view_changes

-- The peers, the identity and the tolerance stay; and the receipts stay genuine, if the sender is a peer or the
-- replica itself.
abbrev pub Keeps : PeerId → Replica → Replica → Type 0
Keeps from r r' =
    (r'.peers ≡ r.peers)
    × (r'.id ≡ r.id)
    × (r'.f ≡ r.f)
    × ((In from r.peers ⊎ (from ≡ r.id)) → IsGenuine r → IsGenuine r')

pub Keeps-join :
    (from : PeerId) (a b c : Replica) → Keeps from a b → Keeps from b c → Keeps from a c
Keeps-join from a b c f g = (
  ground (arith, f.0, g.0),
  ground (arith, f.1, g.1),
  ground (arith, f.2, g.2),
  λ s v. g.3 (rw (f.0, f.1) s) (f.3 s v),
)

abbrev pub unchanged : {from : PeerId} (r : Replica) → Keeps from r r
unchanged r = (refl, refl, refl, λ s v. v)

sender-In :
    (from p : PeerId) (r : Replica)
    → Recorded from r p
    → (In from r.peers ⊎ (from ≡ r.id))
    → In r.id r.peers
    → In p r.peers
sender-In from p r (inl e) (inl m) i = rw e m
sender-In from p r (inl e) (inr f) i = rw (e, f) i
sender-In from p r (inr e) s i = rw e i

pub prepares_at-Genuine :
    (peers : List PeerId) (id : MessageId) (m : Map MessageId PrepareReceipts)
    → Values (PreparesAt peers) m
    → PreparesAt peers id (prepares_at (lookup id m))
prepares_at-Genuine peers id m v = elim (Option-cases (lookup id m)) [
  | inl e ↦ rw e (tt, tt, tt)
  | inr (rs, e) ↦ rw e (v id rs e)
]

keep-PreparesAt :
    (peers : List PeerId) (id : MessageId) (p : PeerId) (m : Prepare) (rs : PrepareReceipts)
    → In p peers
    → get_message_id m.view m.sequence_number ≡ id
    → PreparesAt peers id rs
    → PreparesAt peers id (if has (lookup p rs.m) then rs else record { m = insert p m rs.m })
keep-PreparesAt peers id p m rs i e v = elim (Bool-cases (has (lookup p rs.m))) [
  | inl f ↦ rw f v
  | inr f ↦ rw f (insert-IsReceipts peers _ p m rs.m i e v)
]

pub record_prepare_receipt-Keeps :
    (from p : PeerId) (m : Prepare) (r : Replica)
    → Recorded from r p
    → Keeps from r (record_prepare_receipt p m r)
unfolding record_prepare_receipt
record_prepare_receipt-Keeps from p m r w = (
  refl,
  refl,
  refl,
  λ s v.
      let new =
        insert-Values (PreparesAt r.peers) (get_message_id m.view m.sequence_number) _ r.prepares
          (keep-PreparesAt r.peers (get_message_id m.view m.sequence_number) p m
            (prepares_at (lookup (get_message_id m.view m.sequence_number) r.prepares))
            (sender-In from p r w s v.0) refl
            (prepares_at-Genuine r.peers (get_message_id m.view m.sequence_number) _ v.1))
          v.1 in
      (v.0, new, v.2, v.3),
)

pub commits_at-Genuine :
    (peers : List PeerId) (id : MessageId) (m : Map MessageId CommitReceipts)
    → Values (CommitsAt peers) m
    → CommitsAt peers id (commits_at (lookup id m))
commits_at-Genuine peers id m v = elim (Option-cases (lookup id m)) [
  | inl e ↦ rw e (tt, tt, tt)
  | inr (rs, e) ↦ rw e (v id rs e)
]

keep-CommitsAt :
    (peers : List PeerId) (id : MessageId) (p : PeerId) (m : Commit) (rs : CommitReceipts)
    → In p peers
    → get_message_id m.view m.sequence_number ≡ id
    → CommitsAt peers id rs
    → CommitsAt peers id (if has (lookup p rs.m) then rs else record { m = insert p m rs.m })
keep-CommitsAt peers id p m rs i e v = elim (Bool-cases (has (lookup p rs.m))) [
  | inl f ↦ rw f v
  | inr f ↦ rw f (insert-IsReceipts peers _ p m rs.m i e v)
]

pub record_commit_receipt-Keeps :
    (from p : PeerId) (m : Commit) (r : Replica)
    → Recorded from r p
    → Keeps from r (record_commit_receipt p m r)
unfolding record_commit_receipt
record_commit_receipt-Keeps from p m r w = (
  refl,
  refl,
  refl,
  λ s v.
      let new =
        insert-Values (CommitsAt r.peers) (get_message_id m.view m.sequence_number) _ r.commits
          (keep-CommitsAt r.peers (get_message_id m.view m.sequence_number) p m
            (commits_at (lookup (get_message_id m.view m.sequence_number) r.commits))
            (sender-In from p r w s v.0) refl
            (commits_at-Genuine r.peers (get_message_id m.view m.sequence_number) _ v.2))
          v.2 in
      (v.0, v.1, new, v.3),
)

pub view_changes_at-Genuine :
    (peers : List PeerId) (id : ℕ) (m : Map ℕ ViewChangeReceipts)
    → Values (ViewChangesAt peers) m
    → ViewChangesAt peers id (view_changes_at (lookup id m))
view_changes_at-Genuine peers id m v = elim (Option-cases (lookup id m)) [
  | inl e ↦ rw e (tt, tt, tt)
  | inr (rs, e) ↦ rw e (v id rs e)
]

pub keep-ViewChangesAt :
    (peers : List PeerId) (id : ℕ) (p : PeerId) (m : ViewChange) (rs : ViewChangeReceipts)
    → In p peers
    → m.view ≡ id
    → ViewChangesAt peers id rs
    → ViewChangesAt peers id (if has (lookup p rs.m) then rs else record { m = insert p m rs.m })
keep-ViewChangesAt peers id p m rs i e v = elim (Bool-cases (has (lookup p rs.m))) [
  | inl f ↦ rw f v
  | inr f ↦ rw f (insert-IsReceipts peers _ p m rs.m i e v)
]

pub record_view_change_receipt-Keeps :
    (from p : PeerId) (m : ViewChange) (r : Replica)
    → Recorded from r p
    → Keeps from r (record_view_change_receipt p m r)
unfolding record_view_change_receipt
record_view_change_receipt-Keeps from p m r w = (
  refl,
  refl,
  refl,
  λ s v.
      let new =
        insert-Values (ViewChangesAt r.peers) m.view _ r.view_changes
          (keep-ViewChangesAt r.peers m.view p m (view_changes_at (lookup m.view r.view_changes))
            (sender-In from p r w s v.0) refl (view_changes_at-Genuine r.peers m.view _ v.3))
          v.3 in
      (v.0, v.1, v.2, new),
)
