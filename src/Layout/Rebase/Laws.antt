-- ===== src/Layout/Rebase/Laws.antt =====
-- What the merge of two layouts holds.
use frontdashboard.Prelude.{
  ◌≡◌, ◌∙◌, ap, refl, inl, inr, String, Bool, true, false, not, ◌&&◌, ◌||◌, Option, none, some,
  List, [], ◌∷◌, ◌++◌, map, fun_ext, Bool-cases, Option-cases, filter, find, for_each, str_eq,
  eq_iff, or_else, arith, if◌then◌else◌,
}
use frontdashboard.Prelude.Dict.{get, set, get-set}
use frontdashboard.DashboardTypes.{LayoutItem}
use frontdashboard.Layout.Rebase.{by_widget, positions, ours_first, merge_layout}

-- The first item of the layout for the widget.
abbrev pub item_of : String → List LayoutItem → Option LayoutItem
item_of id = find (λ item. str_eq item.i id)

-- No widget is placed twice.
abbrev pub is_distinct : List LayoutItem → Bool
is_distinct [] = true
is_distinct (item ∷ items) = not (positions item.i items) && is_distinct items

abbrev pub first_some : Option LayoutItem → Option LayoutItem → Option LayoutItem
first_some none b = b
first_some (some a) b = some a

item_of_absent :
    (id : String) (xs : List LayoutItem) → positions id xs ≡ false → item_of id xs ≡ none
item_of_absent id [] h = refl
item_of_absent id (x ∷ xs) h = ground (arith, item_of_absent id xs)

get-loop :
    (id : String) (xs : List LayoutItem) (m : List (String × LayoutItem))
    → is_distinct xs ≡ true
    → get id (for_each (λ n (item : LayoutItem). set item.i item n) m xs)
      ≡ first_some (item_of id xs) (get id m)
get-loop id [] m h = refl
get-loop id (x ∷ xs) m h =
    ground (
      arith,
      get-loop id xs (set x.i x m),
      get-set x.i id x m,
      eq_iff x.i id,
      item_of_absent x.i xs,
    )

get-by_widget :
    (id : String) (xs : List LayoutItem)
    → is_distinct xs ≡ true
    → get id (by_widget xs) ≡ item_of id xs
unfolding by_widget
get-by_widget id xs h = get-loop id xs [] h ∙ ground arith

item_of-append :
    (id : String) (xs ys : List LayoutItem)
    → item_of id (xs ++ ys) ≡ first_some (item_of id xs) (item_of id ys)
item_of-append id [] ys = refl
item_of-append id (x ∷ xs) ys = ground (arith, item_of-append id xs ys)

item_of-i :
    (id : String) (xs : List LayoutItem) (item : LayoutItem)
    → item_of id xs ≡ some item
    → item.i ≡ id
item_of-i id [] item h = cc
item_of-i id (x ∷ xs) item h = ground (arith, item_of-i id xs item, eq_iff x.i id)

-- `ours_first`, by our layout itself.
abbrev placed : List LayoutItem → LayoutItem → LayoutItem
placed ours item = or_else (item_of item.i ours) item

placed-i : (ours : List LayoutItem) (item : LayoutItem) → (placed ours item).i ≡ item.i
placed-i ours item = elim (Option-cases (item_of item.i ours)) [
  | inl e ↦ rw e refl
  | inr (x, e) ↦ rw e (item_of-i item.i ours x e)
]

ours_first-placed :
    (ours server : List LayoutItem)
    → is_distinct ours ≡ true
    → map (ours_first (by_widget ours)) server ≡ map (placed ours) server
ours_first-placed ours server h =
    ap (λ f. map f server)
      (fun_ext λ (item : LayoutItem). ap (λ o. or_else o item) (get-by_widget item.i ours h))

item_of-map :
    (id : String) (ours server : List LayoutItem)
    → item_of id (map (placed ours) server)
      ≡ (if positions id server then first_some (item_of id ours) (item_of id server) else none)
item_of-map id ours [] = refl
item_of-map id ours (x ∷ xs) = elim (Bool-cases (str_eq x.i id)) [
  | inl e ↦ rw (placed-i ours x, e, (eq_iff x.i id).0 e) (ground arith)
  | inr e ↦ rw (placed-i ours x, e) (item_of-map id ours xs)
]

positions-eq :
    (x y : LayoutItem) (xs : List LayoutItem) → x.i ≡ y.i → positions x.i xs ≡ positions y.i xs
positions-eq x y xs e = ap (λ i. positions i xs) e

item_of-filter :
    (id : String) (server ours : List LayoutItem)
    → item_of id (filter (λ item. not (positions item.i server)) ours)
      ≡ (if positions id server then none else item_of id ours)
item_of-filter id server [] = ground arith
item_of-filter id server (x ∷ xs) = elim (Bool-cases (str_eq x.i id)) [
  | inl e ↦
      let same : positions x.i server ≡ positions id server =
        ap (λ i. positions i server) ((eq_iff x.i id).0 e) in
      ground (arith, item_of-filter id server xs)
  | inr e ↦ ground (arith, item_of-filter id server xs)
]

-- Of a layout of ours that places no widget twice and any layout of the server's: where both place
-- a widget, the merge places it where we did; what only one of them places, it places there; and
-- it places nothing else.
pub item_of-merge_layout :
    (id : String) (ours server : List LayoutItem)
    → is_distinct ours ≡ true
    → item_of id (merge_layout ours server) ≡ first_some (item_of id ours) (item_of id server)
unfolding merge_layout
item_of-merge_layout id ours server h =
    item_of-append id (map (ours_first (by_widget ours)) server)
      (filter (λ item. not (positions item.i server)) ours)
    ∙ ground (
      arith,
      ap (item_of id) (ours_first-placed ours server h),
      item_of-map id ours server,
      item_of-filter id server ours,
      item_of_absent id server,
    )

positions-map :
    (id : String) (ours server : List LayoutItem)
    → positions id (map (placed ours) server) ≡ positions id server
positions-map id ours [] = refl
positions-map id ours (x ∷ xs) =
    rw (placed-i ours x) (ap (◌||◌ (str_eq x.i id)) (positions-map id ours xs))

positions-filter :
    (id : String) (server ours : List LayoutItem)
    → positions id ours ≡ false
    → positions id (filter (λ item. not (positions item.i server)) ours) ≡ false
positions-filter id server [] h = refl
positions-filter id server (x ∷ xs) h = ground (arith, positions-filter id server xs)

filter-is_distinct :
    (server ours : List LayoutItem)
    → is_distinct ours ≡ true
    → is_distinct (filter (λ item. not (positions item.i server)) ours) ≡ true
filter-is_distinct server [] h = refl
filter-is_distinct server (x ∷ xs) h =
    ground (arith, positions-filter x.i server xs, filter-is_distinct server xs)
