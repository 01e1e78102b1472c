-- ===== src/Pbft/Json.antt =====
-- JSON values, and what encoding/json does with slices, maps and optional fields. The text of a value
-- is not modelled: a payload is the value that its text stands for. A number is a uint.
pub mod Collections
pub mod Keys
use b7s.Common.{ℕ, List, [], ◌∷◌, Option, none, some, if◌then◌else◌, ◌==◌}
use b7s.Common.Text.{Text, text_eq}
use b7s.Common.Map.{Map}

mutual
  pub data Json : Type 0 where
    json_number : ℕ → Json
    json_text : Text → Json
    json_array : Elements → Json
    json_object : Members → Json

  pub data Elements : Type 0 where
    last_element : Elements
    element : Json → Elements → Elements

  pub data Members : Type 0 where
    last_member : Members
    member : Text → Json → Members → Members

infixl 5 ◌>>=◌
unfoldable pub ◌>>=◌ : {A B : Type 0} → Option A → (A → Option B) → Option B
none >>= next = none
some a >>= next = next a

-- A field of a struct that is missing in the object keeps its zero value.
unfoldable pub member_of : Text → Members → Option Json
member_of name last_member = none
member_of name (member other val rest) =
    let found = member_of name rest in if other == name then some val else found

abbrev pub number_or_zero : Option Json → Option ℕ
number_or_zero none = some 0
number_or_zero (some (json_number n)) = some n
number_or_zero (some _) = none

abbrev pub text_or_empty : Option Json → Option Text
text_or_empty none = some []
text_or_empty (some (json_text t)) = some t
text_or_empty (some _) = none

abbrev pub members_of : Json → Option Members
members_of (json_object ms) = some ms
members_of _ = none

-- `omitempty`.
abbrev pub member_unless_empty : Text → Text → Members → Members
member_unless_empty name [] rest = rest
member_unless_empty name (b ∷ t) rest = member name (json_text (b ∷ t)) rest

module _ {A : Type 0} where
  unfoldable pub encode_list : (A → Json) → List A → Elements
  encode_list encode [] = last_element
  encode_list encode (a ∷ rest) = element (encode a) (encode_list encode rest)

  unfoldable pub decode_list : (Json → Option A) → Elements → Option (List A)
  decode_list decode last_element = some []
  decode_list decode (element val rest) =
      decode val >>= λ a. decode_list decode rest >>= λ tail. some (a ∷ tail)

  -- A missing slice is nil, which is here the empty list.
  abbrev pub list_or_empty : (Json → Option A) → Option Json → Option (List A)
  list_or_empty decode none = some []
  list_or_empty decode (some (json_array vals)) = decode_list decode vals
  list_or_empty decode (some _) = none

  unfoldable pub encode_map : (A → Json) → Map Text A → Members
  encode_map encode [] = last_member
  encode_map encode ((key, a) ∷ m) = member key (encode a) (encode_map encode m)

  unfoldable pub decode_map : (Json → Option A) → Members → Option (Map Text A)
  decode_map decode last_member = some []
  decode_map decode (member key val rest) =
      decode val >>= λ a. decode_map decode rest >>= λ m. some ((key, a) ∷ m)

  abbrev pub map_or_empty : (Json → Option A) → Option Json → Option (Map Text A)
  map_or_empty decode none = some []
  map_or_empty decode (some (json_object ms)) = decode_map decode ms
  map_or_empty decode (some _) = none
