-- ===== src/Agenda/Rows.antt =====
-- The reminders of a dashboard, by the items of its lists.
use frontdashboard.Prelude.{
  ◌≡◌, refl, sym, ap, ◌∙◌, subst, String, Bool, true, false, not, ◌&&◌, Option, none, some, List,
  [], ◌∷◌, ◌++◌, map, find, if◌then◌else◌, any, str_eq, eq_iff, str_eq_refl, arith, Bool-cases,
  Option-cases, inl, inr, append_assoc,
}
use frontdashboard.Prelude.Texts.{prefixed, str_eq-prefixed}
use frontdashboard.ListTypes.{ListItem, ListDetail}
use frontdashboard.Agenda.{
  AgendaItem, ListName, id_of, entry_id, list_item_to_agenda_item, reminders_of,
  fetch_agenda_reminders, name_of, appended,
}

-- The entry of an id.
abbrev pub entry_of : String → List AgendaItem → Option AgendaItem
entry_of id = find (λ e. str_eq (id_of e) id)

-- The server's lists after an item of a list was replaced.
abbrev pub with_item : ListItem → List ListItem → List ListItem
with_item item = map (λ (current : ListItem). if str_eq current.id item.id then item else current)

abbrev pub updated_detail : String → ListItem → ListDetail → ListDetail
updated_detail list_id item d = record d {
  items = if str_eq d.id list_id then with_item item d.items else d.items;
}

-- Every item with its list.
abbrev pub rows_of : ListName → List ListItem → List (ListItem × ListName)
rows_of list = map (λ item. (item, list))

abbrev pub rows : List ListDetail → List (ListItem × ListName)
rows [] = []
rows (d ∷ ds) = rows_of (name_of d) d.items ++ rows ds

-- No item stands twice.
abbrev pub distinct_items : List (ListItem × ListName) → Bool
distinct_items [] = true
distinct_items ((item, l) ∷ rs) = not (any (λ r. str_eq r.0.id item.id) rs) && distinct_items rs

-- The reminders of rows.
pub derive : (String → String → Bool) → String → List (ListItem × ListName) → List AgendaItem
derive lt today [] = []
derive lt today ((item, l) ∷ rs) =
    appended (list_item_to_agenda_item lt today item l) ++ derive lt today rs

abbrev pub first_of : Option AgendaItem → Option AgendaItem → Option AgendaItem
first_of none b = b
first_of (some a) b = some a

pub first-none : (o : Option AgendaItem) → first_of o none ≡ o
first-none none = refl
first-none (some e) = refl

pub find-append :
    (id : String) (xs ys : List AgendaItem)
    → entry_of id (xs ++ ys) ≡ first_of (entry_of id xs) (entry_of id ys)
find-append id [] ys = refl
find-append id (x ∷ xs) ys = ground (arith, find-append id xs ys)

pub derive-append :
    (lt : String → String → Bool) (today : String) (xs ys : List (ListItem × ListName))
    → derive lt today (xs ++ ys) ≡ derive lt today xs ++ derive lt today ys
unfolding derive
derive-append lt today [] ys = refl
derive-append lt today ((item, l) ∷ xs) ys = rw (derive-append lt today xs ys) (
    sym (
      append_assoc (appended (list_item_to_agenda_item lt today item l)) (derive lt today xs)
        (derive lt today ys)))

pub derive-rows_of :
    (lt : String → String → Bool) (today : String) (l : ListName) (items : List ListItem)
    → derive lt today (rows_of l items) ≡ reminders_of lt today l items
unfolding derive
derive-rows_of lt today l [] = refl
derive-rows_of lt today l (item ∷ items) = rw (derive-rows_of lt today l items) refl

pub fetch-eq-derive :
    (lt : String → String → Bool) (today : String) (ds : List ListDetail)
    → fetch_agenda_reminders lt today ds ≡ derive lt today (rows ds)
unfolding fetch_agenda_reminders derive
fetch-eq-derive lt today [] = refl
fetch-eq-derive lt today (d ∷ ds) =
    rw
      (
        derive-append lt today (rows_of (name_of d) d.items) (rows ds),
        derive-rows_of lt today (name_of d) d.items,
        fetch-eq-derive lt today ds,
      )
      refl

-- What a row gives has the id of its item.
pub id_of-derived :
    (lt : String → String → Bool) (today : String) (item : ListItem) (l : ListName) (id : String)
    → entry_of id (appended (list_item_to_agenda_item lt today item l))
      ≡ (if str_eq (entry_id item) id then list_item_to_agenda_item lt today item l else none)
unfolding list_item_to_agenda_item
id_of-derived lt today item l id = elim (Option-cases item.due_date) [
  | inl e ↦ rw (list_item_to_agenda_item, e) (ground arith)
  | inr (due, e) ↦ rw (list_item_to_agenda_item, e) (ground arith)
]

-- What the derived entries have under an id, by rows.
pub derive-cons :
    (lt : String → String → Bool) (today : String) (item : ListItem) (l : ListName) (id : String)
    (rs : List (ListItem × ListName))
    → entry_of id (derive lt today ((item, l) ∷ rs))
      ≡ first_of
          (if str_eq (entry_id item) id then list_item_to_agenda_item lt today item l else none)
          (entry_of id (derive lt today rs))
unfolding derive
derive-cons lt today item l id rs =
    find-append id (appended (list_item_to_agenda_item lt today item l)) (derive lt today rs)
    ∙ ap (λ o. first_of o (entry_of id (derive lt today rs))) (id_of-derived lt today item l id)

abbrev pub replace_row : ListItem → ListName → ListItem × ListName → ListItem × ListName
replace_row item list (it, l) = if str_eq it.id item.id then (item, list) else (it, l)

pub entry_of-other :
    (lt : String → String → Bool) (today : String) (item : ListItem) (list : ListName) (id : String)
    (rs : List (ListItem × ListName))
    → str_eq (entry_id item) id ≡ false
    → entry_of id (derive lt today (map (replace_row item list) rs))
      ≡ entry_of id (derive lt today rs)
unfolding derive
entry_of-other lt today item list id [] n = refl
entry_of-other lt today item list id ((it, l) ∷ rs) n = elim (Bool-cases (str_eq it.id item.id)) [
  | inl e ↦
      let gone : str_eq (entry_id it) id ≡ false =
        subst (λ i. str_eq (prefixed "reminder:" i) id ≡ false) (sym ((eq_iff it.id item.id).0 e))
          n in
      rw
        (
          e,
          derive-cons lt today item list id (map (replace_row item list) rs),
          derive-cons lt today it l id rs,
          n,
          gone,
        )
        (entry_of-other lt today item list id rs n)
  | inr e ↦
      rw
        (
          e,
          derive-cons lt today it l id (map (replace_row item list) rs),
          derive-cons lt today it l id rs,
          entry_of-other lt today item list id rs n,
        )
        refl
]

pub entry_of-lacking :
    (lt : String → String → Bool) (today : String) (item : ListItem) (list : ListName)
    (rs : List (ListItem × ListName))
    → any (λ r. str_eq r.0.id item.id) rs ≡ false
    → entry_of (entry_id item) (derive lt today (map (replace_row item list) rs)) ≡ none
unfolding derive
entry_of-lacking lt today item list [] n = refl
entry_of-lacking lt today item list ((it, l) ∷ rs) n =
    let e : str_eq it.id item.id ≡ false = ground arith in
    let gone : str_eq (entry_id it) (entry_id item) ≡ false =
      str_eq-prefixed "reminder:" it.id item.id ∙ e in
    rw (e, derive-cons lt today it l (entry_id item) (map (replace_row item list) rs), gone)
      (entry_of-lacking lt today item list rs (ground arith))

pub entry_of-own :
    (lt : String → String → Bool) (today : String) (item : ListItem) (list : ListName)
    (rs : List (ListItem × ListName))
    → distinct_items rs ≡ true
    → any (λ r. str_eq r.0.id item.id) rs ≡ true
    → entry_of (entry_id item) (derive lt today (map (replace_row item list) rs))
      ≡ list_item_to_agenda_item lt today item list
unfolding derive
entry_of-own lt today item list [] d h = cc
entry_of-own lt today item list ((it, l) ∷ rs) d h = elim (Bool-cases (str_eq it.id item.id)) [
  | inl e ↦
      let same : it.id ≡ item.id = (eq_iff it.id item.id).0 e in
      let rest : any (λ r. str_eq r.0.id item.id) rs ≡ false =
        subst (λ i. any (λ (r : ListItem × ListName). str_eq r.0.id i) rs ≡ false) same
          (ground arith) in
      rw
        (
          e,
          derive-cons lt today item list (entry_id item) (map (replace_row item list) rs),
          str_eq_refl (entry_id item),
          entry_of-lacking lt today item list rs rest,
        )
        (first-none (list_item_to_agenda_item lt today item list))
  | inr e ↦
      let gone : str_eq (entry_id it) (entry_id item) ≡ false =
        str_eq-prefixed "reminder:" it.id item.id ∙ e in
      rw (e, derive-cons lt today it l (entry_id item) (map (replace_row item list) rs), gone)
        (entry_of-own lt today item list rs (ground arith) (ground arith))
]
