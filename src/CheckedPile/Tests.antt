-- ===== src/CheckedPile/Tests.antt =====
-- The active zone and the checked pile at concrete inputs.
use frontdashboard.Prelude.{
  ◌≡◌, ◌↔◌, refl, true, false, Bool, some, none, List, [], ◌∷◌, String, includes,
}
use frontdashboard.ListTypes.{ListItem}
use frontdashboard.CheckedPile.{merge_active_order}
use frontdashboard.CheckedPile.Order.{Fills, merge_active_order_iff}

abbrev item : String → Bool → ListItem
item id checked = record {
  id = id;
  text = id;
  checked = checked;
  due_date = none;
  priority = none;
  category = none;
  assigned_to = none;
}

abbrev groceries : List ListItem
groceries = item "milk" false ∷ item "eggs" true ∷ item "tea" false ∷ []

runs :
    (merge_active_order groceries ("tea" ∷ "milk" ∷ []) ≡ some ("tea" ∷ "eggs" ∷ "milk" ∷ []))
    × (merge_active_order groceries ("tea" ∷ []) ≡ none)
    × (merge_active_order groceries ("a" ∷ "b" ∷ "c" ∷ []) ≡ none)
unfolding merge_active_order
runs = (refl, refl, refl)

merge_active_order_iff_example :
    (merge_active_order groceries ("tea" ∷ "milk" ∷ []) ≡ some ("tea" ∷ "eggs" ∷ "milk" ∷ [])) ↔ (
      Fills groceries ("tea" ∷ "milk" ∷ []) ("tea" ∷ "eggs" ∷ "milk" ∷ [])
      × (includes ("tea" ∷ "eggs" ∷ "milk" ∷ []) "" ≡ false))
merge_active_order_iff_example =
    merge_active_order_iff groceries ("tea" ∷ "milk" ∷ []) ("tea" ∷ "eggs" ∷ "milk" ∷ [])
