-- ===== src/Common/Hex.antt =====
-- encoding/hex.
use Prim.Native.Nat.{ℕ, ◌+◌, ◌-◌, ◌*◌, ◌/◌, ◌%◌, ◌<◌}
use mathlib.Core.Path.{◌≡◌, refl}
use mathlib.Core.Bool.{◌&&◌}
use mathlib.Core.Option.{Option, none, some}
use mathlib.Core.List.{[], ◌∷◌}
use native.Mathlib.Omega.{arith}
use b7s.Common.Tests.{ltb, leb, if◌then◌else◌}
use b7s.Common.Lists.{All}
use b7s.Common.Text.{Text}

-- The characters 0-9 and a-f, and their values; upper case is read too.
pub digit : ℕ → ℕ
digit n = if ltb n 10 then 48 + n else 87 + n

pub value : ℕ → Option ℕ
value c =
    if leb 48 c && leb c 57
    then some (c - 48)
    else if leb 97 c && leb c 102
    then some (c - 87)
    else if leb 65 c && leb c 70
    then some (c - 55)
    else none

-- `hex.EncodeToString` and `hex.DecodeString`.
unfoldable pub encode : Text → Text
unfolding digit
encode [] = []
encode (b ∷ bs) = digit (b / 16) ∷ digit (b % 16) ∷ encode bs

abbrev pair : Option ℕ → Option ℕ → Option Text → Option Text
pair (some h) (some l) (some bs) = some ((h * 16 + l) ∷ bs)
pair _ _ _ = none

unfoldable pub decode : Text → Option Text
unfolding value
decode [] = some []
decode (h ∷ []) = none
decode (h ∷ l ∷ s) = pair (value h) (value l) (decode s)

value-digit : (n : ℕ) → n < 16 → value (digit n) ≡ some n
unfolding value digit
value-digit n h = ground arith

-- Decoding what was encoded gives the bytes back.
pub decode-encode : (bs : Text) → All (λ b. b < 256) bs → decode (encode bs) ≡ some bs
unfolding encode decode
decode-encode [] h = refl
decode-encode (b ∷ bs) h =
    rw
      (
        value-digit (b / 16) (omega arith),
        value-digit (b % 16) (omega arith),
        decode-encode bs h.1,
        pair,
      )
      (ground arith)
