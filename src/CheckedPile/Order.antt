-- ===== src/CheckedPile/Order.antt =====
-- What the two zones hold, and when a drag within the active zone can be submitted.
use frontdashboard.Prelude.{
  ◌≡◌, ◌∙◌, refl, ap, String, Bool, true, false, some, List, [], ◌∷◌, ◌++◌, for_each, includes,
  ◌&&◌, not, filter, map, arith, subst, inl, inr, ◌↔◌, find, Bool-cases, append-nil, append_assoc,
}
use frontdashboard.ListTypes.{ListItem}
use frontdashboard.CheckedPile.{
  Partition, push_item, partition_items, fill, is_empty, merge_active_order, find_checked_match,
  matches_item_text,
}

abbrev pub active_of : List ListItem → List ListItem
active_of = filter (λ item. not item.checked)

abbrev pub pile_of : List ListItem → List ListItem
pile_of = filter (λ item. item.checked)

partition_loop :
    (p : Partition) (items : List ListItem)
    → for_each push_item p items
      ≡ record { active = p.active ++ active_of items; pile = p.pile ++ pile_of items }
unfolding push_item
partition_loop p [] = simp append-nil
partition_loop p (item ∷ items) = partition_loop (push_item p item) items ∙ split item.checked refl
  where
    split :
        (b : Bool)
        → item.checked ≡ b
        → ◌≡◌ {A = Partition}
            (record {
              active = (push_item p item).active ++ active_of items;
              pile = (push_item p item).pile ++ pile_of items;
            })
            (record {
              active = p.active ++ active_of (item ∷ items);
              pile = p.pile ++ pile_of (item ∷ items);
            })
    split true e = simp (e, append_assoc)
    split false e = simp (e, append_assoc)

-- The active zone holds the unchecked items and the pile the checked ones, each in list order.
pub partition_items_lem :
    (items : List ListItem)
    → partition_items items ≡ record { active = active_of items; pile = pile_of items }
unfolding partition_items
partition_items_lem items = partition_loop (record { active = []; pile = [] }) items

find-pile_of :
    (p : ListItem → Bool) (items : List ListItem)
    → find p (pile_of items) ≡ find (λ item. item.checked && p item) items
find-pile_of p [] = refl
find-pile_of p (item ∷ items) = ground (arith, find-pile_of p items)

-- A retyped text finds the first checked item, in list order, that has it.
pub find_checked_match-eq-find :
    (fold : String → String) (items : List ListItem) (text : String)
    → find_checked_match fold items text
      ≡ find (λ item. item.checked && matches_item_text fold item.text text) items
unfolding find_checked_match
find_checked_match-eq-find fold items text =
    ap (λ (p : Partition). find (λ item. matches_item_text fold item.text text) p.pile)
      (partition_items_lem items)
    ∙ find-pile_of (λ item. matches_item_text fold item.text text) items

-- Ids that fill the places of a list: a checked item keeps its own, the others take the given ids
-- in their order, and all of these are taken.
pub data Fills : List ListItem → List String → List String → Type 0 where
  done : Fills [] [] []
  kept :
      {item : ListItem} {items : List ListItem} {queue merged : List String}
      → item.checked ≡ true
      → Fills items queue merged
      → Fills (item ∷ items) queue (item.id ∷ merged)
  taken :
      {item : ListItem} {items : List ListItem} {queue merged : List String} (id : String)
      → item.checked ≡ false
      → Fills items queue merged
      → Fills (item ∷ items) (id ∷ queue) (id ∷ merged)

fill_of_Fills :
    {items : List ListItem} {queue merged : List String}
    → Fills items queue merged
    → fill items queue ≡ (merged, [])
unfolding fill
fill_of_Fills done = refl
fill_of_Fills (kept c f) = simp (c, fill_of_Fills f)
fill_of_Fills (taken id c f) = simp (c, fill_of_Fills f)

Fills-of_fill :
    (items : List ListItem) (queue : List String)
    → is_empty (fill items queue).1 ≡ true
    → includes (fill items queue).0 "" ≡ false
    → Fills items queue (fill items queue).0
unfolding fill
Fills-of_fill [] [] e n = done
Fills-of_fill [] (q ∷ queue) e n = cc
Fills-of_fill (item ∷ items) [] e n = elim (Bool-cases item.checked) [
  | inl c ↦ simp c (kept c (Fills-of_fill items [] (simp c at e) (ground arith)))
  | inr c ↦ cc (simp c at n)
]
Fills-of_fill (item ∷ items) (q ∷ queue) e n = elim (Bool-cases item.checked) [
  | inl c ↦ simp c (kept c (Fills-of_fill items (q ∷ queue) (simp c at e) (ground arith)))
  | inr c ↦ simp c (taken q c (Fills-of_fill items queue (simp c at e) (ground arith)))
]

is_empty-eq : (xs : List String) → is_empty xs ≡ true → xs ≡ []
is_empty-eq [] e = refl
is_empty-eq (x ∷ xs) e = cc

-- A drag gives an order exactly if its ids fill the places of the unchecked items, one for one, and
-- no id is empty: then checked items keep their places and the others stand as dragged.
pub merge_active_order_iff :
    (items : List ListItem) (active_ids merged : List String)
    → (merge_active_order items active_ids ≡ some merged)
      ↔ (Fills items active_ids merged × (includes merged "" ≡ false))
unfolding merge_active_order
merge_active_order_iff items ids merged = (
  λ e.
      let same : (fill items ids).0 ≡ merged = ground arith in
      let whole : includes (fill items ids).0 "" ≡ false = ground arith in
      (
        subst (Fills items ids) same (Fills-of_fill items ids (ground arith) whole),
        rw (← same) whole,
      ),
  λ h. ground (arith, fill_of_Fills h.0, h.1),
)

-- The stored order of the unchecked items is a drag that changes nothing.
Fills-stored :
    (items : List ListItem)
    → Fills items (map (λ item. item.id) (active_of items)) (map (λ item. item.id) items)
Fills-stored [] = done
Fills-stored (item ∷ items) = elim (Bool-cases item.checked) [
  | inl c ↦ simp c (kept c (Fills-stored items))
  | inr c ↦ simp c (taken item.id c (Fills-stored items))
]

-- Where no id is empty, to submit the order in which the unchecked items already stand gives back
-- the stored order.
pub merge_active_order-stored :
    (items : List ListItem)
    → includes (map (λ item. item.id) items) "" ≡ false
    → merge_active_order items (map (λ item. item.id) (active_of items))
      ≡ some (map (λ item. item.id) items)
merge_active_order-stored items h =
    (merge_active_order_iff items (map (λ item. item.id) (active_of items))
        (map (λ item. item.id) items)).1
      (Fills-stored items, h)
