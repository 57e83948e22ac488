-- ===== src/Lists/Histories/Writes.antt =====
-- The caches under the responses to the writes of this tab.
use frontdashboard.Prelude.{
  suc, ◌-◌, ◌++◌, String, Bool, true, false, Option, none, some, List, [], ◌∷◌, ◌⊎◌, inl, inr,
  Option-cases, filter, map, str_eq, not,
}
use frontdashboard.ListTypes.{ListItem, ListSummary}
use frontdashboard.Query.{update_where}
use frontdashboard.Query.Interleaving.{updated, invalidated, seeded}
use frontdashboard.Agenda.{
  AgendaItem, on_data, drop_items, rename_entry, is_of_list, list_item_to_agenda_item,
  patch_entries, entry_id, apply_agenda_item_update, remove_agenda_items,
  rename_agenda_list_entries, remove_agenda_items_for_list, invalidate_agenda_reminders,
}
use frontdashboard.Lists.{Lists, read_detail}
use frontdashboard.Lists.Mutations.{
  apply_created_list, update_list_name, delete_list, restore_list, patch_agenda_from_list_detail,
  add_list_item, update_list_item, delete_list_item, with_created, detail_of, replaced_item,
}
use frontdashboard.Lists.Histories.{
  on_data-IsQuiet, with_restored-IsQuiet, on_toast, on_summaries, on_details, on_agenda,
  on_patch_summary, on_patch_detail, on_read_detail, on_remove, Histories,
}

on_entries :
    (change : List AgendaItem → List AgendaItem) (ls : Lists)
    → Histories ls
    → Histories (record ls {
      agenda = update_where (λ scope. true) (λ state scope. on_data change state) ls.agenda;
    })
on_entries change ls h =
    on_agenda ls h _
      (updated (λ scope. true) (λ state scope. on_data change state) (on_data-IsQuiet change))

pub on_created :
    (list : ListSummary) (ls : Lists) → Histories ls → Histories (apply_created_list list ls)
unfolding apply_created_list
on_created list ls h =
    on_details _
      (on_summaries ls h _ (updated _ (λ state scope. with_created list state) (λ s scope l. l))) _
      (seeded list.id (detail_of list))

pub on_renamed :
    (id : String) (result : ListSummary ⊎ Option String) (ls : Lists)
    → Histories ls
    → Histories (update_list_name id result ls).0
unfolding update_list_name rename_agenda_list_entries
on_renamed id (inl list) ls h = on_entries (map (rename_entry id list.name)) _ (
    on_patch_detail _ (on_patch_summary ls h id (λ l. some list)) id
      (λ detail. record detail { name = list.name; updated_at = list.updated_at }))
on_renamed id (inr error) ls h = on_toast _ ls h

pub on_deleted :
    (id : String) (error : Option (Option String)) (ls : Lists)
    → Histories ls
    → Histories (delete_list id error ls).0
unfolding delete_list remove_agenda_items_for_list
on_deleted id none ls h =
    on_entries (filter (λ entry. not (is_of_list id entry))) _ (on_remove id ls h)
on_deleted id (some error) ls h = on_toast _ ls h

pub on_restored :
    (id dashboard_id : String) (result : ListSummary ⊎ Option String) (ls : Lists)
    → Histories ls
    → Histories (restore_list id dashboard_id result ls).0.0
unfolding restore_list invalidate_agenda_reminders
on_restored id dashboard_id (inl list) ls h =
    on_agenda _ (on_summaries ls h _ (updated _ _ (with_restored-IsQuiet id list))) _
      (invalidated (λ scope. str_eq scope dashboard_id) true none)
on_restored id dashboard_id (inr error) ls h = on_toast _ ls h

module _ (lt : String → String → Bool) (today : String) where
  on_patch_agenda :
      (id : String) (item : ListItem) (ls : Lists)
      → Histories ls
      → Histories (patch_agenda_from_list_detail lt today id item ls)
  unfolding patch_agenda_from_list_detail apply_agenda_item_update
  on_patch_agenda id item ls h =
      let r = on_read_detail ls h id in
      elim (Option-cases (read_detail id ls).1) [
        | inl e ↦ rw (patch_agenda_from_list_detail, e) r
        | inr (d, e) ↦
            rw (patch_agenda_from_list_detail, e)
              (on_agenda _ r _ (
                updated (λ scope. str_eq scope d.dashboard_id)
                  (λ state scope.
                    on_data
                      (patch_entries (entry_id item) (
                        list_item_to_agenda_item lt today item
                          (record { id = d.id; name = d.name })))
                      state)
                  (on_data-IsQuiet _)))
      ]

  pub on_added :
      (id : String) (result : ListItem ⊎ Option String) (ls : Lists)
      → Histories ls
      → Histories (add_list_item lt today id result ls).0
  unfolding add_list_item
  on_added id (inl item) ls h = on_patch_agenda id item _ (
      on_patch_summary _
        (on_patch_detail ls h id (λ detail. record detail {
          items = detail.items ++ item ∷ [];
          item_count = suc detail.item_count;
        }))
        id (λ list. some (record list { item_count = suc list.item_count })))
  on_added id (inr error) ls h = on_toast _ ls h

  pub on_updated :
      (id item_id : String) (renames : Bool) (result : ListItem ⊎ Option String) (ls : Lists)
      → Histories ls
      → Histories (update_list_item lt today id item_id renames result ls).0
  unfolding update_list_item
  on_updated id item_id renames (inl item) ls h = on_patch_agenda id item _ (
      on_patch_detail ls h id
        (λ detail. record detail { items = replaced_item item_id item detail.items }))
  on_updated id item_id renames (inr error) ls h = on_toast _ ls h

pub on_item_deleted :
    (id item_id : String) (succeeded : Bool) (ls : Lists)
    → Histories ls
    → Histories (delete_list_item id item_id succeeded ls)
unfolding delete_list_item remove_agenda_items
on_item_deleted id item_id true ls h =
    on_patch_summary _
      (on_entries (drop_items (item_id ∷ [])) _ (
        on_patch_detail ls h id (λ detail. record detail {
          items = filter (λ item. not (str_eq item.id item_id)) detail.items;
          item_count = detail.item_count - 1;
        })))
      id (λ list. some (record list { item_count = list.item_count - 1 }))
on_item_deleted id item_id false ls h = on_toast _ ls h
