-- ===== src/CheckedPile.antt =====
-- frontend/src/components/lists/checkedPile.ts: the active zone and the checked pile of a list.
-- `fold` stands for `trim().toLowerCase()`.
pub mod Order
mod Tests
use frontdashboard.Prelude.{
  String, Bool, true, false, Option, none, some, List, [], ◌∷◌, ◌++◌, str_eq, if◌then◌else◌,
  for_each, find, includes, or_else, ◌||◌, not,
}
use frontdashboard.ListTypes.{ListItem}

abbrev pub matches_item_text : (String → String) → String → String → Bool
matches_item_text fold a b = str_eq (fold a) (fold b)

pub record Partition : Type 0 where
  pub active : List ListItem
  pub pile : List ListItem

-- One round of the loop of `partitionItems`.
unfoldable pub push_item : Partition → ListItem → Partition
push_item p item =
    if item.checked
    then record p { pile = p.pile ++ item ∷ [] }
    else record p { active = p.active ++ item ∷ [] }

unfoldable pub partition_items : List ListItem → Partition
unfolding push_item
partition_items items = for_each push_item (record { active = []; pile = [] }) items

unfoldable pub find_checked_match : (String → String) → List ListItem → String → Option ListItem
unfolding partition_items
find_checked_match fold items text =
    find (λ item. matches_item_text fold item.text text) (partition_items items).pile

-- `queue.shift() ?? ''`, and the queue after it.
abbrev pub shift : List String → String × List String
shift [] = ("", [])
shift (id ∷ queue) = (id, queue)

-- The map over the items in `mergeActiveOrder`: the ids, and what is left of the queue.
unfoldable pub fill : List ListItem → List String → List String × List String
fill [] queue = ([], queue)
fill (item ∷ items) queue =
    let rest = fill items (if item.checked then queue else (shift queue).1) in
    ((if item.checked then item.id else (shift queue).0) ∷ rest.0, rest.1)

abbrev pub is_empty : List String → Bool
is_empty [] = true
is_empty (_ ∷ _) = false

unfoldable pub merge_active_order : List ListItem → List String → Option (List String)
unfolding fill
merge_active_order items active_ids =
    let (merged, queue) = fill items active_ids in
    if not (is_empty queue) || includes merged "" then none else some merged
