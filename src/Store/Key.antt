-- ===== src/Store/Key.antt =====
-- The keys of the records (store/key.go, store/params.go), and the bounds of the keys that start with a
-- prefix (store/retrieve.go). A segment of a key is a byte slice or a string, both lists of bytes here.
pub mod Bounds
use b7s.Common.{
  ℕ, zero, suc, ◌+◌, ◌%◌, List, [], ◌∷◌, ◌++◌, Option, none, some, ltb, length, nat_beq,
  if◌then◌else◌,
}
use b7s.Common.Text.{Text}
use b7s.Common.Bytes.{get, set, take}

abbrev pub prefix_peer : ℕ
prefix_peer = 1

abbrev pub prefix_function : ℕ
prefix_function = 2

abbrev pub separator : ℕ
separator = b':'

unfoldable pub add_segments : Text → List Text → Text
add_segments key [] = key
add_segments key (segment ∷ segments) = add_segments (key ++ separator ∷ segment) segments

unfoldable pub encode_key : ℕ → List Text → Text
encode_key prefix segments = add_segments (prefix ∷ []) segments

-- The rounds for the first `i` indexes, from the last to the first.
unfoldable pub upper_bound_loop : ℕ → Text → Option Text
upper_bound_loop zero end = none
upper_bound_loop (suc i) end =
    let bumped = set i ((get i end + 1) % 256) end in
    let rest = upper_bound_loop i bumped in
    if nat_beq (get i bumped) 0 then rest else some (take (suc i) bumped)

-- The result nil is `none`.
unfoldable pub iterator_prefix_upper_bound : Text → Option Text
iterator_prefix_upper_bound prefix = upper_bound_loop (length prefix) prefix
