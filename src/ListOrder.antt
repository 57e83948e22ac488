-- ===== src/ListOrder.antt =====
-- frontend/src/resources/listData.ts, `orderByIds`: rows put in the order of a list of ids.
pub mod Laws
mod Tests
use frontdashboard.Prelude.{
  ℕ, String, Bool, true, false, not, ◌&&◌, ◌||◌, ◌==◌, Option, none, some, List, [], ◌∷◌, str_eq,
  if◌then◌else◌, for_each, includes, length,
}
use frontdashboard.Prelude.Dict.{get, set}

-- `new Set(ids).size === ids.length`
abbrev pub is_distinct : List String → Bool
is_distinct [] = true
is_distinct (id ∷ ids) = not (includes ids id) && is_distinct ids

module _ {A : Type 0} where
  -- The loop over the ids, which stops at one that no row has.
  unfoldable pub pick : List (String × A) → List String → Option (List A)
  pick rows [] = some []
  pick rows (id ∷ ids) =
      let rest = pick rows ids in
      elim (get id rows) [
        | none ↦ none
        | some row ↦ elim rest [ none ↦ none | some next ↦ some (row ∷ next) ]
      ]

-- Rows of a type with an id.
module _ {A : Type 0} (id_of : A → String) where
  -- `new Map(rows.map((r) => [r.id, r]))`
  unfoldable pub by_id : List A → List (String × A)
  by_id rows = for_each (λ m (row : A). set (id_of row) row m) [] rows

  unfoldable pub order_by_ids : List A → List String → Option (List A)
  unfolding by_id pick
  order_by_ids rows ordered_ids =
      if not (length ordered_ids == length rows)
      then none
      else if not (is_distinct ordered_ids)
      then none
      else pick (by_id rows) ordered_ids
