-- ===== src/Store/Key/Bounds.antt =====
-- The bounds of an iterator enclose the keys with the prefix, and no other keys.
use b7s.Common.{
  ℕ, zero, suc, ◌+◌, ◌<◌, ◌%◌, Bool, true, false, not, ◌&&◌, [], ◌∷◌, Option, none, some, length,
  nat_beq, if◌then◌else◌, ◌≡◌, refl, arith, All,
}
use b7s.Common.Text.{has_prefix, Text}
use b7s.Common.Bytes.{get, set, take, text_ltb}
use b7s.Store.Key.{upper_bound_loop, iterator_prefix_upper_bound}

abbrev pub IsBytes : Text → Type 0
IsBytes s = All (λ b. b < 256) s

-- The first byte gains one, unless it is the last byte there is.
abbrev bump : ℕ → Option Text
bump b = if nat_beq ((b + 1) % 256) 0 then none else some ((b + 1) % 256 ∷ [])

-- The bound for a longer prefix, from that of its tail.
abbrev carry : ℕ → Option Text → Option Text
carry b none = bump b
carry b (some rest) = some (b ∷ rest)

upper_bound_loop-cons :
    (i b : ℕ) (s : Text) → upper_bound_loop (suc i) (b ∷ s) ≡ carry b (upper_bound_loop i s)
unfolding upper_bound_loop get set take
upper_bound_loop-cons zero b s = ground arith
upper_bound_loop-cons (suc i) b s =
    ground (arith, upper_bound_loop-cons i b (set i ((get i s + 1) % 256) s))

-- From the start, what the loop does from the end.
iterator_prefix_upper_bound-cons :
    (b : ℕ) (s : Text)
    → iterator_prefix_upper_bound (b ∷ s) ≡ carry b (iterator_prefix_upper_bound s)
unfolding iterator_prefix_upper_bound
iterator_prefix_upper_bound-cons b s = upper_bound_loop-cons (length s) b s

-- The keys that an iterator with these bounds visits.
abbrev pub within : Text → Option Text → Text → Bool
within lower none key = not (text_ltb key lower)
within lower (some upper) key = not (text_ltb key lower) && text_ltb key upper

-- The bounds that end in the carried bound.
within-carry :
    (b a : ℕ) (prefix key : Text) (o : Option Text)
    → b < 256
    → a < 256
    → within (b ∷ prefix) (carry b o) (a ∷ key) ≡ (nat_beq a b && within prefix o key)
unfolding text_ltb
within-carry b a prefix key none p k = ground arith
within-carry b a prefix key (some upper) p k = ground arith

within-empty : (b : ℕ) (prefix : Text) (o : Option Text) → within (b ∷ prefix) o [] ≡ false
unfolding text_ltb
within-empty b prefix none = refl
within-empty b prefix (some upper) = refl

within-nil : (key : Text) → within [] (iterator_prefix_upper_bound []) key ≡ true
unfolding text_ltb iterator_prefix_upper_bound upper_bound_loop
within-nil key = refl

-- For bytes, the bounds of the iterator hold a key just when it starts with the prefix.
pub within-iterator_prefix_upper_bound :
    (prefix key : Text)
    → IsBytes prefix
    → IsBytes key
    → within prefix (iterator_prefix_upper_bound prefix) key ≡ has_prefix prefix key
unfolding has_prefix
within-iterator_prefix_upper_bound [] key p k = within-nil key
within-iterator_prefix_upper_bound (b ∷ prefix) [] p k =
    within-empty b prefix (iterator_prefix_upper_bound (b ∷ prefix))
within-iterator_prefix_upper_bound (b ∷ prefix) (a ∷ key) p k =
    rw
      (
        iterator_prefix_upper_bound-cons,
        within-carry b a prefix key (iterator_prefix_upper_bound prefix) p.0 k.0,
        within-iterator_prefix_upper_bound prefix key p.1 k.1,
      )
      refl
