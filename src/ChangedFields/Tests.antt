-- ===== src/ChangedFields/Tests.antt =====
-- Runs of the vocabulary's predicates.
use frontdashboard.Prelude.{◌≡◌, refl, true, false, String, some, List, [], ◌∷◌}
use frontdashboard.ChangedFields.{
  is_fully_applied_locally, is_echo_suppressible, primary_changed_field, moves_dashboard_row,
  widgets,
}

runs :
    (is_fully_applied_locally ("widgets" ∷ "layout" ∷ []) ≡ true)
    × (is_fully_applied_locally ("layout" ∷ "brand_new" ∷ []) ≡ false)
    × (is_echo_suppressible [] ≡ false)
    × (moves_dashboard_row ("widgets" ∷ []) ≡ false)
    × (primary_changed_field ("layout" ∷ "widgets" ∷ []) ≡ some widgets)
unfolding is_fully_applied_locally is_echo_suppressible moves_dashboard_row primary_changed_field
runs = (refl, refl, refl, refl, refl)

abbrev mixed : List String
mixed = "layout" ∷ "brand_new" ∷ []
