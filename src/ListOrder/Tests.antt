-- ===== src/ListOrder/Tests.antt =====
-- Reorders at concrete inputs.
use frontdashboard.Prelude.{◌≡◌, refl, false, some, none, List, [], ◌∷◌, String}
use frontdashboard.ListTypes.{ListItem}
use frontdashboard.ListOrder.{order_by_ids}
use frontdashboard.ListOrder.Laws.{ids, row_of, order_by_ids-row_of}

abbrev row : String → ListItem
row id = record {
  id = id;
  text = id;
  checked = false;
  due_date = none;
  priority = none;
  category = none;
  assigned_to = none;
}

abbrev id_of : ListItem → String
id_of item = item.id

abbrev rows : List ListItem
rows = row "a" ∷ row "b" ∷ row "c" ∷ []

abbrev dragged : List String
dragged = "c" ∷ "a" ∷ "b" ∷ []

runs :
    (order_by_ids id_of rows ("c" ∷ "a" ∷ "b" ∷ []) ≡ some (row "c" ∷ row "a" ∷ row "b" ∷ []))
    × (order_by_ids id_of rows ("c" ∷ "a" ∷ "a" ∷ []) ≡ none)
    × (order_by_ids id_of rows ("c" ∷ "a" ∷ "d" ∷ []) ≡ none)
unfolding order_by_ids
runs = (refl, refl, refl)

order_by_ids-row_of_example :
    (ids id_of (row "c" ∷ row "a" ∷ row "b" ∷ []) ≡ "c" ∷ "a" ∷ "b" ∷ [])
    × (row_of id_of "b" (row "c" ∷ row "a" ∷ row "b" ∷ []) ≡ row_of id_of "b" rows)
order_by_ids-row_of_example =
    order_by_ids-row_of id_of rows ("c" ∷ "a" ∷ "b" ∷ []) (row "c" ∷ row "a" ∷ row "b" ∷ []) "b"
      refl runs.0
