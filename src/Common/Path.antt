-- ===== src/Common/Path.antt =====
-- Paths as `filepath` of the standard library reads them. The working directory of the node, which
-- the paths are joined to, is made absolute when it starts (cmd/node/main.go).
pub mod Place
use b7s.Common.{ℕ, List, [], ◌∷◌, ◌++◌, ◌==◌, if◌then◌else◌, nat_eq, nat_beq, length}
use b7s.Common.Text.{Text, text_eq, has_prefix, codes}

-- The parts of a path between its slashes.
unfoldable pub split_from : Text → Text → List Text
split_from part [] = part ∷ []
split_from part (b ∷ path) =
    let within = split_from (part ++ b ∷ []) path in
    let after = split_from [] path in if nat_beq b b'/' then part ∷ after else within

abbrev pub split : Text → List Text
split = split_from []

-- One part, on the parts so far, the last first. From the root `..` goes nowhere.
unfoldable pub enter : Text → List Text → List Text
enter part stack =
    if part == []
    then stack
    else if part == codes "."
    then stack
    else if part == codes ".."
    then elim stack [ [] ↦ [] | last ∷ earlier ↦ earlier ]
    else part ∷ stack

unfoldable pub resolve : List Text → List Text → List Text
resolve [] stack = stack
resolve (part ∷ parts) stack = resolve parts (enter part stack)

unfoldable pub render : List Text → Text
render [] = []
render (last ∷ earlier) = render earlier ++ b'/' ∷ last

-- `filepath.Clean` of an absolute path; the root itself is a slash.
unfoldable pub clean : Text → Text
clean path = elim (resolve (split path) []) [
  | [] ↦ codes "/"
  | last ∷ earlier ↦ render (last ∷ earlier)
]

unfoldable pub join_parts : List Text → Text
join_parts [] = []
join_parts (part ∷ parts) = if part == [] then join_parts parts else part ++ b'/' ∷ join_parts parts

-- `filepath.Join`, where the first part is an absolute path. A slash at the end makes no difference.
unfoldable pub join : List Text → Text
join parts = clean (join_parts parts)

abbrev drop_one : Text → Text
drop_one [] = []
drop_one (b ∷ path) = path

-- The same for a relative path, where a `..` at its start stays.
unfoldable pub enter_relative : Text → List Text → List Text
enter_relative part stack =
    if part == []
    then stack
    else if part == codes "."
    then stack
    else if part == codes ".."
    then elim stack [
      | [] ↦ part ∷ []
      | last ∷ earlier ↦ if last == codes ".." then part ∷ last ∷ earlier else earlier
    ]
    else part ∷ stack

unfoldable pub resolve_relative : List Text → List Text → List Text
resolve_relative [] stack = stack
resolve_relative (part ∷ parts) stack = resolve_relative parts (enter_relative part stack)

-- Without the slash at the front.
unfoldable pub clean_relative : Text → Text
clean_relative path = elim (resolve_relative (split path) []) [
  | [] ↦ codes "."
  | last ∷ earlier ↦ drop_one (render (last ∷ earlier))
]

-- `filepath.Clean` of any path.
unfoldable pub clean_any : Text → Text
clean_any path = if has_prefix (codes "/") path then clean path else clean_relative path
