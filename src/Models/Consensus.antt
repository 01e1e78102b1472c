-- ===== src/Models/Consensus.antt =====
-- consensus/consensus.go, and its copy in node/execute.go.
use b7s.Common.{
  Bool, true, false, [], ◌∷◌, map, Option, none, some, if◌then◌else◌, ◌==◌, leb, ◌&&◌, ◌+◌,
}
use b7s.Common.Text.{Text, text_eq, codes}

-- `consensus.Type`; no consensus is zero.
pub data ConsensusType : Type 0 where
  no_consensus raft pbft : ConsensusType

-- `strings.ToLower`, on a text of ASCII.
unfoldable pub to_lower : Text → Text
to_lower s = map (λ b. if leb b'A' b && leb b b'Z' then b + 32 else b) s

-- `none` is an error.
unfoldable pub parse_consensus : Text → Option ConsensusType
parse_consensus [] = some no_consensus
parse_consensus (b ∷ s) =
    if to_lower (b ∷ s) == codes "raft"
    then some raft
    else if to_lower (b ∷ s) == codes "pbft"
    then some pbft
    else none

abbrev pub consensus_required : ConsensusType → Bool
consensus_required no_consensus = false
consensus_required _ = true

abbrev pub is_pbft : ConsensusType → Bool
is_pbft pbft = true
is_pbft _ = false
