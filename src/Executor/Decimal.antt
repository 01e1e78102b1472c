-- ===== src/Executor/Decimal.antt =====
-- `fmt.Sprint` of a uint64: the decimal digits, at most twenty.
use b7s.Common.{
  ℕ, zero, suc, ◌+◌, ◌*◌, ◌-◌, ◌/◌, ◌%◌, ◌<◌, [], ◌∷◌, ltb, if◌then◌else◌, ◌≡◌, ap, ◌∙◌, arith,
  Bool-cases, inl, inr,
}
use Prim.Native.Nat.{◌^◌}
use b7s.Common.Text.{Text}

-- The digits of `n` before those of `out`; each round of fuel is for one digit.
unfoldable pub digits : ℕ → ℕ → Text → Text
digits zero n out = out
digits (suc fuel) n out =
    let rest = digits fuel (n / 10) ((b'0' + n % 10) ∷ out) in
    if ltb n 10 then (b'0' + n) ∷ out else rest

unfoldable pub decimal : ℕ → Text
decimal n = digits 20 n []

-- The number that digits stand for, after the digits of `so_far`.
unfoldable pub read_digits : Text → ℕ → ℕ
read_digits [] so_far = so_far
read_digits (d ∷ rest) so_far = read_digits rest (so_far * 10 + (d - b'0'))

none_left : (n : ℕ) → n < 1 → 0 ≡ n
none_left n h = omega arith

one_digit : (n : ℕ) → 0 * 10 + (b'0' + n - b'0') ≡ n
one_digit n = omega arith

last_digit : (n : ℕ) → n / 10 * 10 + (b'0' + n % 10 - b'0') ≡ n
last_digit n = omega arith

fewer : (n power : ℕ) → n < 10 * power → n / 10 < power
fewer n power h = omega arith

-- The numbers below are those of so many digits.
abbrev tens : ℕ → ℕ
tens zero = 1
tens (suc k) = 10 * tens k

read_digits-digits :
    (fuel n : ℕ) (out : Text)
    → n < tens fuel
    → read_digits (digits fuel n out) 0 ≡ read_digits out n
unfolding digits read_digits
read_digits-digits zero n out h = ap (read_digits out) (none_left n h)
read_digits-digits (suc fuel) n out h = elim (Bool-cases (ltb n 10)) [
  | inl y ↦ rw y (ap (read_digits out) (one_digit n))
  | inr m ↦ rw m (
      read_digits-digits fuel (n / 10) ((b'0' + n % 10) ∷ out) (fewer n (tens fuel) h)
      ∙ ap (read_digits out) (last_digit n))
]

pub read_digits-decimal : (n : ℕ) → n < 2 ^ 64 → read_digits (decimal n) 0 ≡ n
unfolding decimal read_digits
read_digits-decimal n h = read_digits-digits 20 n [] (omega (arith, h))
