-- ===== src/Pbft/Tests/Views.antt =====
-- View changes at concrete inputs.
use b7s.Common.{◌≤◌, ◌≡◌, refl, List, [], ◌∷◌, true, none, some, length, ◌≢◌, ◌↔◌, ◌⊎◌}
use b7s.Common.Text.{text_beq}
use b7s.Common.Hex
use b7s.Common.Map.{Map}
use b7s.Models.{PeerId}
use b7s.Pbft.Message.{PrepareInfo, ViewChange, PrePrepare, null_request}
use b7s.Pbft.State.{Replica, new_state}
use b7s.Pbft.Action.{ok}
use b7s.Pbft.Signature.{sign}
use b7s.Pbft.ViewChange.{
  valid_view_change, should_send_view_change, lowest_view, consider_view, count_others,
}
use b7s.Pbft.ViewChange.Validity.{IsValidViewChange, valid_view_change_iff}
use b7s.Pbft.NewView.{
  get_prepare, best_from, best_of, get_highest_sequence_number, highest_from, highest_of,
  generate_pre_prepares, pre_prepares_from, sign_all, valid_sequence,
}
use b7s.Pbft.NewView.Certificates.{
  Certified, get_prepare_highest_view, get_highest_sequence_number_bounds,
}
use b7s.Pbft.NewView.Generate.{generate_pre_prepares-valid_sequence}
use b7s.Pbft.Tests.Fixtures.{env, alice, bob, carol, replica_of, change_to, certificate, proposal}

-- Carol knows two certificates for the second place, and none for the first.
abbrev changes : Map PeerId ViewChange
changes =
    (bob, change_to 2 (certificate 0 2 ∷ [])) ∷ (carol, change_to 2 (certificate 1 2 ∷ [])) ∷ []

get_prepare_test : get_prepare changes 2 ≡ some (certificate 1 2)
unfolding get_prepare best_from best_of
get_prepare_test = refl

get_prepare_highest_view_example :
    ((info : PrepareInfo) × (get_prepare changes 2 ≡ some info)
      × Certified changes info
      × (info.sequence_number ≡ 2)
      × ((other : PrepareInfo)
          → Certified changes other
          → other.sequence_number ≡ 2
          → other.view ≤ info.view))
    ⊎ ((get_prepare changes 2 ≡ none)
        × ((other : PrepareInfo) → Certified changes other → other.sequence_number ≢ 2))
get_prepare_highest_view_example = get_prepare_highest_view changes 2

get_highest_sequence_number_bounds_example :
    ((info : PrepareInfo)
      → Certified changes info
      → info.sequence_number ≤ get_highest_sequence_number changes)
    × ((get_highest_sequence_number changes ≡ 0)
        ⊎ ((info : PrepareInfo) × Certified changes info
            × (get_highest_sequence_number changes ≡ info.sequence_number)))
get_highest_sequence_number_bounds_example = get_highest_sequence_number_bounds changes

abbrev signed : List PrePrepare
signed = record (proposal 2 1) { digest = []; request = null_request } ∷ proposal 2 2 ∷ []

generate_pre_prepares-valid_sequence_example :
    (valid_sequence 2 0 signed ≡ ok tt) × (length signed ≡ get_highest_sequence_number changes)
unfolding generate_pre_prepares sign_all sign Hex.encode pre_prepares_from get_prepare best_from
    best_of get_highest_sequence_number highest_from highest_of
generate_pre_prepares-valid_sequence_example =
    generate_pre_prepares-valid_sequence env 2 changes signed refl

valid_view_change_iff_example :
    (valid_view_change env (replica_of bob) (change_to 2 (certificate 1 2 ∷ [])) ≡ ok tt)
    ↔ IsValidViewChange env (replica_of bob) (change_to 2 (certificate 1 2 ∷ []))
valid_view_change_iff_example =
    valid_view_change_iff env (replica_of bob) (change_to 2 (certificate 1 2 ∷ []))

-- Alice has heard from two of the others that they want view 2.
abbrev asked : Replica
asked = record (replica_of alice) {
  state = record new_state { view_changes = (2, record { m = changes }) ∷ [] };
}

should_send_view_change_test : should_send_view_change asked ≡ (2, true)
unfolding should_send_view_change lowest_view consider_view count_others text_beq
should_send_view_change_test = refl
