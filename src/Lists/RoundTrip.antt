-- ===== src/Lists/RoundTrip.antt =====
-- An item that is added and deleted again.
use frontdashboard.Prelude.{
  suc, ◌-◌, ◌≡◌, refl, ap, ◌∙◌, String, Bool, true, false, not, some, List, [], ◌∷◌, ◌++◌, filter,
  any, arith, Option-cases, inl, inr, str_eq, str_eq_refl,
}
use frontdashboard.Prelude.Dict.{get}
use frontdashboard.ListTypes.{ListItem, ListDetail}
use frontdashboard.Query.{QueryEntry}
use frontdashboard.Lists.{Lists, patch_list_summary_by_id, patch_list_detail_by_id, read_detail}
use frontdashboard.Lists.Mutations.{patch_agenda_from_list_detail, add_list_item, delete_list_item}
use frontdashboard.Lists.Rollback.{showing, read-held, get-patch_list_detail}

abbrev added : ListItem → ListDetail → ListDetail
added item d = record d { items = d.items ++ item ∷ []; item_count = suc d.item_count }

abbrev dropped : String → ListDetail → ListDetail
dropped item_id d = record d {
  items = filter (λ item. not (str_eq item.id item_id)) d.items;
  item_count = d.item_count - 1;
}

filter-added :
    (item : ListItem) (items : List ListItem)
    → any (λ i. str_eq i.id item.id) items ≡ false
    → filter (λ i. not (str_eq i.id item.id)) (items ++ item ∷ []) ≡ items
filter-added item [] h = ground (arith, str_eq_refl item.id)
filter-added item (i ∷ items) h = ground (arith, filter-added item items)

dropped-added :
    (item : ListItem) (d : ListDetail)
    → any (λ i. str_eq i.id item.id) d.items ≡ false
    → dropped item.id (added item d) ≡ d
dropped-added item d h =
    let counted : suc d.item_count - 1 ≡ d.item_count = omega arith in
    rw (filter-added item d.items h, counted) refl

module _ (lt : String → String → Bool) (today : String) where
  -- The agenda's patch reads the detail, and leaves it.
  get-patch_agenda :
      (id : String) (item : ListItem) (ls : Lists)
      → (patch_agenda_from_list_detail lt today id item ls).details ≡ (read_detail id ls).0.details
  unfolding patch_agenda_from_list_detail
  get-patch_agenda id item ls = elim (Option-cases (read_detail id ls).1) [
    | inl e ↦ rw (patch_agenda_from_list_detail, e) refl
    | inr (d, e) ↦ rw (patch_agenda_from_list_detail, e) refl
  ]

  -- Where a list's detail is held and holds no item of the id, to add an item and to delete it again
  -- leaves the detail as it was, its count of items included.
  pub delete-add_list_item :
      (id : String) (item : ListItem) (e : QueryEntry String ListDetail) (d : ListDetail)
      (ls : Lists)
      → get id ls.details.entries ≡ some e
      → str_eq e.scope id ≡ true
      → e.state.data_ ≡ some d
      → any (λ i. str_eq i.id item.id) d.items ≡ false
      → get id
          (delete_list_item id item.id true
            (add_list_item lt today id (inl item) ls).0).details.entries
        ≡ some (record e { scope = id; state = showing d e.state })
  unfolding add_list_item delete_list_item patch_list_summary_by_id
  delete-add_list_item id item e d ls h p q n =
      let grown = patch_list_detail_by_id id (added item) ls in
      let counted =
        patch_list_summary_by_id id
          (λ list. some (record list { item_count = suc list.item_count })) grown in
      let with_item = get-patch_list_detail id (added item) e d ls h p q in
      let found =
        read-held id (record e { state = showing (added item d) e.state }) counted with_item in
      let kept = ap (λ c. get id c.entries) (get-patch_agenda id item counted) ∙ found.1 in
      let back =
        get-patch_list_detail id (dropped item.id)
          (record e { scope = id; state = showing (added item d) e.state }) (added item d)
          (patch_agenda_from_list_detail lt today id item counted) kept (str_eq_refl id) refl in
      rw (dropped-added item d n) at back
