-- ===== src/Common/Bytes.antt =====
-- Reading, writing and cutting byte slices by index, and their order.
use b7s.Common.{ℕ, zero, suc, Bool, true, false, [], ◌∷◌, ltb, if◌then◌else◌}
use b7s.Common.Text.{Text}

-- `end[i]`; the source never reads past the end.
unfoldable pub get : ℕ → Text → ℕ
get i [] = 0
get zero (b ∷ s) = b
get (suc i) (b ∷ s) = get i s

-- `end[i] = v`.
unfoldable pub set : ℕ → ℕ → Text → Text
set i v [] = []
set zero v (b ∷ s) = v ∷ s
set (suc i) v (b ∷ s) = b ∷ set i v s

-- `end[:n]`.
unfoldable pub take : ℕ → Text → Text
take zero s = []
take (suc n) [] = []
take (suc n) (b ∷ s) = b ∷ take n s

-- `bytes.Compare(s, t) < 0`.
unfoldable pub text_ltb : Text → Text → Bool
text_ltb s [] = false
text_ltb [] (b ∷ t) = true
text_ltb (a ∷ s) (b ∷ t) =
    let rest = text_ltb s t in if ltb a b then true else if ltb b a then false else rest
