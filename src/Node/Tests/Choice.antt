-- ===== src/Node/Tests/Choice.antt =====
-- Roll calls and attributes at concrete inputs.
use b7s.Common.{suc, true, false, List, [], ◌∷◌, none, some, ◌≡◌, ◌↔◌, refl}
use b7s.Common.Text.{Text, text_beq}
use b7s.Common.Map.{lookup, insert}
use b7s.Models.{Attributes}
use b7s.Pbft.Tests.Fixtures.{alice, bob, carol, dave}
use b7s.Node.RollCall.{
  RollCallEvent, timed_out, replied, reported, too_few_for_pbft, execute_roll_call, roll_call_loop,
  on_timeout,
}
use b7s.Node.RollCall.Chosen.{counted, uncounted, execute_roll_call_chosen}
use b7s.Node.Attributes.{
  have_attributes, attestor_map, attribute_map, missing_each, found_one_of, check_values,
  value_mismatch,
}
use b7s.Node.Attributes.Match.{IsMatch, have_attributes_iff}

abbrev wanted_function : Text
wanted_function = 30 ∷ []

-- Bob answers for another function, carol is not connected, and alice answers twice.
abbrev replies : List RollCallEvent
replies =
    replied alice wanted_function true
    ∷ replied bob [] true
    ∷ replied carol wanted_function false
    ∷ replied alice wanted_function true
    ∷ replied dave wanted_function true
    ∷ timed_out
    ∷ []

execute_roll_call_test :
    (execute_roll_call false wanted_function (some 2) replies ≡ reported (alice ∷ alice ∷ []))
    × (execute_roll_call true wanted_function none replies ≡ too_few_for_pbft 3)
unfolding execute_roll_call roll_call_loop on_timeout text_beq
execute_roll_call_test = (refl, refl)

execute_roll_call_chosen_example :
    (execute_roll_call true wanted_function (some (suc 3)) replies
      ≡ counted true wanted_function (suc 3) replies)
    × (execute_roll_call true wanted_function none replies ≡ uncounted true wanted_function replies)
execute_roll_call_chosen_example = execute_roll_call_chosen true wanted_function 3 replies

-- The attribute 1 must be 2, attested by alice, and by bob or carol.
abbrev wish : Attributes
wish = record {
  attestation_required = true;
  values = record { name = 1 ∷ []; value = 2 ∷ [] } ∷ [];
  attestors = record { each = alice ∷ []; one_of = bob ∷ carol ∷ [] };
}

have_attributes_test :
    (have_attributes (alice ∷ carol ∷ []) ((1 ∷ [], 5 ∷ []) ∷ (1 ∷ [], 2 ∷ []) ∷ []) wish ≡ none)
    × (have_attributes (alice ∷ carol ∷ []) ((1 ∷ [], 2 ∷ []) ∷ (1 ∷ [], 5 ∷ []) ∷ []) wish
        ≡ some value_mismatch)
unfolding have_attributes attestor_map attribute_map missing_each found_one_of check_values lookup
    insert text_beq
have_attributes_test = (refl, refl)

have_attributes_iff_example :
    (have_attributes (alice ∷ carol ∷ []) ((1 ∷ [], 2 ∷ []) ∷ []) wish ≡ none)
    ↔ IsMatch (alice ∷ carol ∷ []) ((1 ∷ [], 2 ∷ []) ∷ []) wish
have_attributes_iff_example = have_attributes_iff (alice ∷ carol ∷ []) ((1 ∷ [], 2 ∷ []) ∷ []) wish
