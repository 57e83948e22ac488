-- ===== src/Agenda/Removals.antt =====
-- The agenda once items or a list are deleted, or a list is renamed, against a refetch.
use frontdashboard.Prelude.{
  ◌≡◌, refl, ◌∙◌, ◌⊎◌, str_eq_refl, eq_iff, ap, String, Bool, false, not, ◌||◌, none, some, List,
  [], ◌∷◌, ◌++◌, map, filter, if◌then◌else◌, str_eq, arith, Bool-cases, Option-cases, inl, inr,
  includes,
}
use frontdashboard.Prelude.Texts.{prefixed, str_eq-prefixed}
use frontdashboard.Query.{QueryState}
use frontdashboard.ListTypes.{ListItem, ListDetail}
use frontdashboard.Agenda.{
  AgendaItem, Reminder, overdue, today as due_today, reminder, on_data, ListName, id_of, entry_id,
  list_item_to_agenda_item, reminders_of, fetch_agenda_reminders, name_of, rename_entry, is_of_list,
  drop_items,
}

-- The details once items, or a list, are deleted, and once a list is renamed.
abbrev pub without_items : List String → ListDetail → ListDetail
without_items ids d = record d { items = filter (λ item. not (includes ids item.id)) d.items }

abbrev pub without_list : String → List ListDetail → List ListDetail
without_list id = filter (λ d. not (str_eq d.id id))

abbrev pub renamed : String → String → ListDetail → ListDetail
renamed id name d = if str_eq d.id id then record d { name = name } else d

filter-append :
    (p : AgendaItem → Bool) (xs ys : List AgendaItem)
    → filter p (xs ++ ys) ≡ filter p xs ++ filter p ys
filter-append p [] ys = refl
filter-append p (x ∷ xs) ys = ground (arith, filter-append p xs ys)

map-append :
    (f : AgendaItem → AgendaItem) (xs ys : List AgendaItem)
    → map f (xs ++ ys) ≡ map f xs ++ map f ys
map-append f [] ys = refl
map-append f (x ∷ xs) ys = rw (map-append f xs ys) refl

includes-prefixed :
    (ids : List String) (id : String)
    → includes (map (prefixed "reminder:") ids) (prefixed "reminder:" id) ≡ includes ids id
includes-prefixed [] id = refl
includes-prefixed (i ∷ ids) id =
    ground (arith, includes-prefixed ids id, str_eq-prefixed "reminder:" i id)

module _ (lt : String → String → Bool) (today : String) where
  -- The entry of an item bears the ids of the item and of its list.
  derived_cases :
      (item : ListItem) (list : ListName)
      → (list_item_to_agenda_item lt today item list ≡ none)
        ⊎ ((r : Reminder) × (list_item_to_agenda_item lt today item list ≡ some (reminder r))
            × (r.id ≡ entry_id item)
            × (r.list_id ≡ list.id))
  unfolding list_item_to_agenda_item
  derived_cases item list = elim (Option-cases item.due_date) [
    | inl e ↦ inl (rw (list_item_to_agenda_item, e) refl)
    | inr (due, e) ↦ elim (Bool-cases (item.checked || str_eq due "" || lt today due)) [
      | inl c ↦ inl (rw (list_item_to_agenda_item, e, c) refl)
      | inr c ↦ inr (
        record {
          id = entry_id item;
          title = item.text;
          due_date = due;
          list_id = list.id;
          list_name = list.name;
          priority = item.priority;
          status = if lt due today then overdue else due_today;
        },
        rw (list_item_to_agenda_item, e, c) refl,
        refl,
        refl,
      )
    ]
  ]

  filter-reminders :
      (ids : List String) (list : ListName) (items : List ListItem)
      → filter
          (λ e. not (includes (map (prefixed "reminder:") ids) (id_of e)))
          (reminders_of lt today list items)
        ≡ reminders_of lt today list (filter (λ item. not (includes ids item.id)) items)
  filter-reminders ids list [] = refl
  filter-reminders ids list (item ∷ items) =
      let rest = filter-reminders ids list items in
      elim (derived_cases item list) [
        | inl e ↦ elim (Bool-cases (includes ids item.id)) [
          | inl i ↦ rw (e, i) rest
          | inr i ↦ rw (e, i, e) rest
        ]
        | inr (r, e, own, _) ↦
            let test : includes (map (prefixed "reminder:") ids) r.id ≡ includes ids item.id =
              ap (includes (map (prefixed "reminder:") ids)) own ∙ includes-prefixed ids item.id in
            elim (Bool-cases (includes ids item.id)) [
              | inl i ↦ rw (e, test, i) rest
              | inr i ↦ rw (e, test, i, e, rest) refl
            ]
      ]

  reminders-renamed :
      (list : ListName) (name : String) (items : List ListItem)
      → map (rename_entry list.id name) (reminders_of lt today list items)
        ≡ reminders_of lt today (record list { name = name }) items
  unfolding list_item_to_agenda_item
  reminders-renamed list name [] = refl
  reminders-renamed list name (item ∷ items) =
      let rest = reminders-renamed list name items in
      elim (Option-cases item.due_date) [
        | inl e ↦ rw (list_item_to_agenda_item, e) rest
        | inr (due, e) ↦ elim (Bool-cases (item.checked || str_eq due "" || lt today due)) [
          | inl c ↦ rw (list_item_to_agenda_item, e, c) rest
          | inr c ↦ rw (list_item_to_agenda_item, e, c, str_eq_refl list.id, rest) refl
        ]
      ]

  -- Whether the reminders of a list are those of a named one.
  of_list-reminders :
      (id name : String) (list : ListName) (items : List ListItem)
      → (str_eq list.id id ≡ false
          → map (rename_entry id name) (reminders_of lt today list items)
            ≡ reminders_of lt today list items)
        × (filter (λ e. not (is_of_list id e)) (reminders_of lt today list items)
            ≡ (if str_eq list.id id then [] else reminders_of lt today list items))
  of_list-reminders id name list [] = (λ n. refl, ground arith)
  of_list-reminders id name list (item ∷ items) =
      let (renames, filters) = of_list-reminders id name list items in
      elim (derived_cases item list) [
        | inl e ↦ rw e (renames, filters)
        | inr (r, e, _, at_) ↦ elim (Bool-cases (str_eq list.id id)) [
          | inl i ↦ (λ n. absurd (ground arith), rw (e, at_, i, filters, i) refl)
          | inr i ↦ (λ n. rw (e, at_, n, renames n) refl, rw (e, at_, i, filters, i) refl)
        ]
      ]

  removed_items :
      (ids : List String) (details : List ListDetail)
      → filter
          (λ e. not (includes (map (prefixed "reminder:") ids) (id_of e)))
          (fetch_agenda_reminders lt today details)
        ≡ fetch_agenda_reminders lt today (map (without_items ids) details)
  unfolding fetch_agenda_reminders
  removed_items ids [] = refl
  removed_items ids (d ∷ ds) =
      rw
        (
          filter-append (λ e. not (includes (map (prefixed "reminder:") ids) (id_of e)))
              (reminders_of lt today (name_of d) d.items) (fetch_agenda_reminders lt today ds),
          filter-reminders ids (name_of d) d.items,
          removed_items ids ds,
        )
        refl

  renamed_list :
      (id name : String) (details : List ListDetail)
      → map (rename_entry id name) (fetch_agenda_reminders lt today details)
        ≡ fetch_agenda_reminders lt today (map (renamed id name) details)
  unfolding fetch_agenda_reminders
  renamed_list id name [] = refl
  renamed_list id name (d ∷ ds) =
      let parts =
        map-append (rename_entry id name) (reminders_of lt today (name_of d) d.items)
          (fetch_agenda_reminders lt today ds) in
      elim (Bool-cases (str_eq d.id id)) [
        | inl e ↦
            rw
              (
                parts,
                e,
                ← (eq_iff d.id id).0 e,
                reminders-renamed (name_of d) name d.items,
                (eq_iff d.id id).0 e,
                renamed_list id name ds,
              )
              refl
        | inr e ↦
            rw
              (
                parts,
                e,
                (of_list-reminders id name (name_of d) d.items).0 e,
                renamed_list id name ds,
              )
              refl
      ]

  removed_list :
      (id : String) (details : List ListDetail)
      → filter (λ e. not (is_of_list id e)) (fetch_agenda_reminders lt today details)
        ≡ fetch_agenda_reminders lt today (without_list id details)
  unfolding fetch_agenda_reminders
  removed_list id [] = refl
  removed_list id (d ∷ ds) =
      let parts =
        filter-append (λ e. not (is_of_list id e)) (reminders_of lt today (name_of d) d.items)
          (fetch_agenda_reminders lt today ds) in
      let own = (of_list-reminders id "" (name_of d) d.items).1 in
      elim (Bool-cases (str_eq d.id id)) [
        | inl e ↦ rw (parts, own, e, removed_list id ds) refl
        | inr e ↦ rw (parts, own, e, removed_list id ds) refl
      ]

-- What a change of the held data leaves in the entries of a cache.
on_data-fetched :
    (change : List AgendaItem → List AgendaItem) (entries : List AgendaItem)
    (state : QueryState (List AgendaItem))
    → state.data_ ≡ some entries
    → (on_data change state).data_ ≡ some (change entries)
on_data-fetched change entries state h = rw h refl

-- For an entry of the agenda that shows what a fetch of some lists gave: to remove deleted items, to
-- rename a list and to remove a deleted list each leave there what a fetch of the lists gives once
-- they have changed so, on the same day.
pub agenda_patches_lem :
    (lt : String → String → Bool) (today : String) (details : List ListDetail)
    (state : QueryState (List AgendaItem)) (ids : List String) (id name : String)
    → state.data_ ≡ some (fetch_agenda_reminders lt today details)
    → ((on_data (drop_items ids) state).data_
        ≡ some (fetch_agenda_reminders lt today (map (without_items ids) details)))
      × ((on_data (map (rename_entry id name)) state).data_
          ≡ some (fetch_agenda_reminders lt today (map (renamed id name) details)))
      × ((on_data (filter (λ e. not (is_of_list id e))) state).data_
          ≡ some (fetch_agenda_reminders lt today (without_list id details)))
agenda_patches_lem lt today details state ids id name h = (
  on_data-fetched (drop_items ids) _ state h ∙ ap some (removed_items lt today ids details),
  on_data-fetched (map (rename_entry id name)) _ state h
      ∙ ap some (renamed_list lt today id name details),
  on_data-fetched (filter (λ e. not (is_of_list id e))) _ state h
      ∙ ap some (removed_list lt today id details),
)
