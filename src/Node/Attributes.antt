-- ===== src/Node/Attributes.antt =====
-- Whether a worker has the attributes that a request wants (node/attributes.go). Of the worker's own
-- attestation, a type of another library, two parts are used: the signers of its attestors, and its
-- attributes by name and value.
pub mod Match
use b7s.Common.{
  Bool, false, true, List, [], ◌∷◌, Option, none, some, ◌==◌, ◌||◌, ◌&&◌, not, if◌then◌else◌,
}
use b7s.Common.Text.{Text, text_eq}
use b7s.Common.Map.{Map, lookup, insert, has}
use b7s.Models.{PeerId, Parameter, Attributes}
use b7s.Pbft.Messaging.{is_empty}

pub data AttributeError : Type 0 where
  attestors_required attestor_not_found no_attestor_found : AttributeError
  attribute_not_found value_mismatch : AttributeError

-- The set of the signers, as a map.
unfoldable pub attestor_map : Map PeerId (Unit {0}) → List PeerId → Map PeerId (Unit {0})
attestor_map m [] = m
attestor_map m (signer ∷ rest) = attestor_map (insert signer tt m) rest

-- The attributes by name; of equal names the last counts.
unfoldable pub attribute_map : Map Text Text → List (Text × Text) → Map Text Text
attribute_map m [] = m
attribute_map m ((name, value) ∷ rest) = attribute_map (insert name value m) rest

unfoldable pub missing_each : Map PeerId (Unit {0}) → List PeerId → Bool
missing_each attestors [] = false
missing_each attestors (wanted ∷ rest) =
    let later = missing_each attestors rest in if has (lookup wanted attestors) then later else true

unfoldable pub found_one_of : Map PeerId (Unit {0}) → List PeerId → Bool
found_one_of attestors [] = false
found_one_of attestors (wanted ∷ rest) =
    let later = found_one_of attestors rest in if has (lookup wanted attestors) then true else later

unfoldable pub check_values : Map Text Text → List Parameter → Option AttributeError
check_values attrs [] = none
check_values attrs (want ∷ rest) =
    let later = check_values attrs rest in
    elim (lookup want.name attrs) [
      | none ↦ some attribute_not_found
      | some value ↦ if value == want.value then later else some value_mismatch
    ]

-- `none` is no error.
unfoldable pub have_attributes :
    List PeerId → List (Text × Text) → Attributes → Option AttributeError
have_attributes signers attributes want =
    let attestors = attestor_map [] signers in
    if want.attestation_required && is_empty signers
    then some attestors_required
    else if missing_each attestors want.attestors.each
    then some attestor_not_found
    else if not (is_empty want.attestors.one_of)
        && not (found_one_of attestors want.attestors.one_of)
    then some no_attestor_found
    else check_values (attribute_map [] attributes) want.values
