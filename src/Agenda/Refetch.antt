-- ===== src/Agenda/Refetch.antt =====
-- The patches of the agenda against the refetches that they stand in for.
use frontdashboard.Prelude.{
  ◌≡◌, refl, sym, ap, ◌∙◌, String, Bool, true, false, not, none, List, [], ◌∷◌, ◌++◌, map, filter,
  if◌then◌else◌, any, All, str_eq, eq_iff, str_eq_refl, arith, Bool-cases, inl, inr,
}
use frontdashboard.ListTypes.{ListItem, ListDetail}
use frontdashboard.Agenda.{
  AgendaItem, ListName, id_of, entry_id, list_item_to_agenda_item, patch_entries,
  fetch_agenda_reminders, name_of, appended,
}
use frontdashboard.Agenda.Rows.{
  entry_of, with_item, updated_detail, rows_of, rows, distinct_items, derive, first-none,
  find-append, fetch-eq-derive, id_of-derived, replace_row, entry_of-other, entry_of-own,
}

-- The rows of the item are of the list.
abbrev IsOn : ListItem → ListName → ListItem × ListName → Type 0
IsOn item list r = str_eq r.0.id item.id ≡ true → r.1 ≡ list

rows_of-with_item :
    (item : ListItem) (list l : ListName) (items : List ListItem)
    → All (IsOn item list) (rows_of l items)
    → rows_of l (with_item item items) ≡ map (replace_row item list) (rows_of l items)
rows_of-with_item item list l [] h = refl
rows_of-with_item item list l (it ∷ items) (p, h) = elim (Bool-cases (str_eq it.id item.id)) [
  | inl e ↦ rw (e, p e, rows_of-with_item item list l items h) refl
  | inr e ↦ rw (e, rows_of-with_item item list l items h) refl
]

rows_of-elsewhere :
    (item : ListItem) (list l : ListName) (items : List ListItem)
    → str_eq l.id list.id ≡ false
    → All (IsOn item list) (rows_of l items)
    → rows_of l items ≡ map (replace_row item list) (rows_of l items)
rows_of-elsewhere item list l [] n h = refl
rows_of-elsewhere item list l (it ∷ items) n (p, h) = elim (Bool-cases (str_eq it.id item.id)) [
  | inl e ↦ absurd (ground (arith, ap (λ (x : ListName). x.id) (p e), str_eq_refl list.id))
  | inr e ↦ rw (e, ← rows_of-elsewhere item list l items n h) refl
]

All-both {κ} :
    {A : Type 0} (P : A → Type κ) (xs ys : List A) → All P (xs ++ ys) → All P xs × All P ys
All-both P [] ys h = (tt, h)
All-both P (x ∷ xs) ys (p, h) = let (q, r) = All-both P xs ys h in ((p, q), r)

map-append :
    (item : ListItem) (list : ListName) (xs ys : List (ListItem × ListName))
    → map (replace_row item list) (xs ++ ys)
      ≡ map (replace_row item list) xs ++ map (replace_row item list) ys
map-append item list [] ys = refl
map-append item list (x ∷ xs) ys = rw (map-append item list xs ys) refl

rows-updated :
    (item : ListItem) (list : ListName) (ds : List ListDetail)
    → All (IsOn item list) (rows ds)
    → rows (map (updated_detail list.id item) ds) ≡ map (replace_row item list) (rows ds)
rows-updated item list [] h = refl
rows-updated item list (d ∷ ds) h =
    let both = All-both (IsOn item list) (rows_of (name_of d) d.items) (rows ds) h in
    let rest = rows-updated item list ds both.1 in
    elim (Bool-cases (str_eq d.id list.id)) [
      | inl e ↦
          rw
            (
              e,
              rest,
              rows_of-with_item item list (name_of d) d.items both.0,
              map-append item list (rows_of (name_of d) d.items) (rows ds),
            )
            refl
      | inr e ↦
          rw
            (
              e,
              rest,
              map-append item list (rows_of (name_of d) d.items) (rows ds),
              ← rows_of-elsewhere item list (name_of d) d.items e both.0,
            )
            refl
    ]

entry_of-without :
    (own id : String) (es : List AgendaItem)
    → entry_of id (filter (λ e. not (str_eq (id_of e) own)) es)
      ≡ (if str_eq own id then none else entry_of id es)
entry_of-without own id [] = ground arith
entry_of-without own id (e ∷ es) =
    ground
      (arith, entry_of-without own id es, eq_iff (id_of e) own, eq_iff (id_of e) id, eq_iff own id)

-- The entry under an id once an item's own entry is derived again.
entry_of-patch :
    (lt : String → String → Bool) (today : String) (item : ListItem) (list : ListName) (id : String)
    (es : List AgendaItem)
    → entry_of id (patch_entries (entry_id item) (list_item_to_agenda_item lt today item list) es)
      ≡ (if str_eq (entry_id item) id
          then list_item_to_agenda_item lt today item list
          else entry_of id es)
unfolding patch_entries
entry_of-patch lt today item list id es =
    let next = list_item_to_agenda_item lt today item list in
    let parts =
      find-append id (filter (λ e. not (str_eq (id_of e) (entry_id item))) es) (appended next) in
    elim (Bool-cases (str_eq (entry_id item) id)) [
      | inl e ↦
          rw (parts, entry_of-without (entry_id item) id es, id_of-derived lt today item list id, e)
            refl
      | inr e ↦
          rw (parts, entry_of-without (entry_id item) id es, id_of-derived lt today item list id, e)
            (first-none (entry_of id es))
    ]

-- Where no item stands twice in the lists of a dashboard and the item stands in the named list, to
-- derive its entry again from a mutation's response leaves under every id what a refetch of all the
-- lists would bring there, on the same day.
pub patch_entries-eq-refetch :
    (lt : String → String → Bool) (today : String) (item : ListItem) (list : ListName)
    (details : List ListDetail) (id : String)
    → distinct_items (rows details) ≡ true
    → any (λ r. str_eq r.0.id item.id) (rows details) ≡ true
    → All (λ r. str_eq r.0.id item.id ≡ true → r.1 ≡ list) (rows details)
    → entry_of id (
        patch_entries
          (entry_id item)
          (list_item_to_agenda_item lt today item list)
          (fetch_agenda_reminders lt today details))
      ≡ entry_of id (fetch_agenda_reminders lt today (map (updated_detail list.id item) details))
patch_entries-eq-refetch lt today item list details id d h on =
    let now = fetch-eq-derive lt today details in
    let then_ =
      fetch-eq-derive lt today (map (updated_detail list.id item) details)
      ∙ ap (derive lt today) (rows-updated item list details on) in
    elim (Bool-cases (str_eq (entry_id item) id)) [
      | inl e ↦
          let own = entry_of-own lt today item list (rows details) d h in
          rw
            (
              entry_of-patch lt today item list id (fetch_agenda_reminders lt today details),
              e,
              then_,
              ← (eq_iff (entry_id item) id).0 e,
            )
            (sym own)
      | inr e ↦
          rw
            (
              entry_of-patch lt today item list id (fetch_agenda_reminders lt today details),
              e,
              then_,
              now,
            )
            (sym (entry_of-other lt today item list id (rows details) e))
    ]
