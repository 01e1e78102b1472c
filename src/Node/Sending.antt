-- ===== src/Node/Sending.antt =====
-- Sending to many peers (node/message.go). The sends run at once; each is a success or an error.
pub mod Outcomes
use b7s.Common.{Bool, not, List, Option, none, some, length, select, nat_beq, if◌then◌else◌}
use b7s.Common.Text.{Text}
use b7s.Common.Outcome.{Outcome, ok, err}
use b7s.Models.{PeerId}

pub data SendError : Type 0 where
  encoding_failed all_sends_failed some_sends_failed : SendError

-- The peers that a payload did not reach.
abbrev pub unreached : (PeerId → Text → Bool) → Text → List PeerId → List PeerId
unreached delivers payload peers = select (λ p. not (delivers p payload)) peers

unfoldable pub send_to_many :
    (PeerId → Text → Bool) → List PeerId → Option Text → Bool → Outcome SendError Unit
send_to_many delivers peers none require_all = err encoding_failed
send_to_many delivers peers (some payload) require_all =
    let failures = length (unreached delivers payload peers) in
    if nat_beq failures 0
    then ok tt
    else if nat_beq failures (length peers)
    then err all_sends_failed
    else if require_all
    then err some_sends_failed
    else ok tt
