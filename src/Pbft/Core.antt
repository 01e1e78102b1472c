-- ===== src/Pbft/Core.antt =====
-- consensus/pbft/core.go: the replica count, the tolerance and the quorums.
pub mod Quorum
use b7s.Common.{
  ℕ, ◌+◌, ◌-◌, ◌*◌, ◌/◌, ◌%◌, Bool, true, ◌≡◌, ◌↔◌, ◌&&◌, arith, leb, if◌then◌else◌, Eq, nat_beq,
}

unfoldable pub calc_byzantine_tolerance : ℕ → ℕ
calc_byzantine_tolerance n = if leb n 1 then 0 else (n - 1) / 3

pub record PbftCore : Type 0 where
  pub n : ℕ
  pub f : ℕ
  pub sequence : ℕ
  pub view : ℕ

unfoldable pub new_pbft_core : ℕ → PbftCore
new_pbft_core total = record {
  n = total;
  f = calc_byzantine_tolerance total;
  sequence = 0;
  view = 0;
}

unfoldable pub primary : PbftCore → ℕ → ℕ
primary c v = v % c.n

unfoldable pub current_primary : PbftCore → ℕ
current_primary c = c.view % c.n

unfoldable pub prepare_quorum : PbftCore → ℕ
prepare_quorum c = 2 * c.f

unfoldable pub commit_quorum : PbftCore → ℕ
commit_quorum c = 2 * c.f + 1

unfoldable pub min_cluster_results : ℕ → ℕ
min_cluster_results n = calc_byzantine_tolerance n + 1

pub record MessageId : Type 0 where
  pub view : ℕ
  pub sequence : ℕ

unfoldable pub get_message_id : ℕ → ℕ → MessageId
get_message_id view sequence_no = record { view = view; sequence = sequence_no }

abbrev pub message_id_beq : MessageId → MessageId → Bool
message_id_beq a b = nat_beq a.view b.view && nat_beq a.sequence b.sequence

pub message_id_beq_iff : (a b : MessageId) → (message_id_beq a b ≡ true) ↔ (a ≡ b)
message_id_beq_iff a b = ground arith

instance abbrev pub message_id_eq : Eq MessageId
message_id_eq = record { beq = message_id_beq; beq_iff = message_id_beq_iff }
