-- ===== src/Lists/Mutations.antt =====
-- frontend/src/resources/listData.ts: what the responses to the writes of this tab change.
use frontdashboard.Prelude.{
  suc, ◌-◌, String, Bool, true, false, not, Option, none, some, List, [], ◌∷◌, ◌++◌, map, filter,
  if◌then◌else◌, or_else, str_eq, ◌⊎◌, inl, inr,
}
use frontdashboard.ListTypes.{ListItem, ListSummary, ListDetail}
use frontdashboard.Query.{QueryState, update_where, seed}
use frontdashboard.Agenda.{
  scope_key, max_cached_scopes, apply_agenda_item_update, remove_agenda_items,
  rename_agenda_list_entries, remove_agenda_items_for_list, invalidate_agenda_reminders,
}
use frontdashboard.Lists.{
  Lists, Sent, reminders_request, toast, thrown, patch_list_summary_by_id, patch_list_detail_by_id,
  remove_list_from_caches, read_detail,
}

abbrev pub detail_of : ListSummary → ListDetail
detail_of list = record {
  id = list.id;
  name = list.name;
  dashboard_id = list.dashboard_id;
  item_count = list.item_count;
  updated_at = list.updated_at;
  items = [];
}

abbrev pub with_created :
    ListSummary → QueryState (List ListSummary) → QueryState (List ListSummary)
with_created list state = record state { data_ = some (or_else state.data_ [] ++ list ∷ []) }

unfoldable pub apply_created_list : ListSummary → Lists → Lists
unfolding update_where seed
apply_created_list list ls = record ls {
  summaries =
      update_where (λ scope. str_eq scope list.dashboard_id)
        (λ state scope. with_created list state) ls.summaries;
  details = seed scope_key max_cached_scopes list.id (detail_of list) ls.details;
}

-- `createList`; a failure is left to the caller.
unfoldable pub create_list : ListSummary ⊎ Option String → Lists → Lists
unfolding apply_created_list
create_list (inl list) ls = apply_created_list list ls
create_list (inr error) ls = ls

-- The caller's outcome is the error that is thrown, if one is.
unfoldable pub update_list_name :
    String → ListSummary ⊎ Option String → Lists → Lists × Option String
unfolding patch_list_summary_by_id patch_list_detail_by_id rename_agenda_list_entries
update_list_name id (inl updated) ls =
    let summarised = patch_list_summary_by_id id (λ list. some updated) ls in
    let detailed =
      patch_list_detail_by_id id
        (λ detail. record detail { name = updated.name; updated_at = updated.updated_at })
        summarised in
    (record detailed { agenda = rename_agenda_list_entries id updated.name detailed.agenda }, none)
update_list_name id (inr error) ls =
    thrown "Failed to rename list." "Failed to rename list." error ls

unfoldable pub delete_list : String → Option (Option String) → Lists → Lists × Option String
unfolding remove_list_from_caches remove_agenda_items_for_list
delete_list id none ls =
    let removed = remove_list_from_caches id ls in
    (record removed { agenda = remove_agenda_items_for_list id removed.agenda }, none)
delete_list id (some error) ls =
    thrown "Failed to move list to trash." "Failed to move list to trash." error ls

abbrev pub with_restored :
    String → ListSummary → QueryState (List ListSummary) → QueryState (List ListSummary)
with_restored id restored state = elim state.data_ [
  | none ↦ state
  | some lists ↦ record state {
    data_ = some (filter (λ l. not (str_eq l.id id)) lists ++ restored ∷ []);
  }
]

-- The caller's outcome is the list, if it was restored.
unfoldable pub restore_list :
    String → String → ListSummary ⊎ Option String → Lists → (Lists × List Sent) × Option ListSummary
unfolding update_where invalidate_agenda_reminders
restore_list id dashboard_id (inl restored) ls =
    let (agenda, requests) = invalidate_agenda_reminders dashboard_id ls.agenda in
    (
      (
        record ls {
          summaries =
              update_where (λ scope. str_eq scope dashboard_id)
                (λ state scope. with_restored id restored state) ls.summaries;
          agenda = agenda;
        },
        map reminders_request requests,
      ),
      some restored,
    )
restore_list id dashboard_id (inr error) ls =
    ((toast (or_else error "Failed to restore list.") ls, []), none)

abbrev pub replaced_item : String → ListItem → List ListItem → List ListItem
replaced_item item_id item = map (λ current. if str_eq current.id item_id then item else current)

module _ (date_lt : String → String → Bool) (today_key : String) where
  unfoldable pub patch_agenda_from_list_detail : String → ListItem → Lists → Lists
  unfolding read_detail apply_agenda_item_update
  patch_agenda_from_list_detail list_id item ls =
      let (read, detail) = read_detail list_id ls in
      elim detail [
        | none ↦ read
        | some d ↦ record read {
          agenda =
              apply_agenda_item_update date_lt today_key d.dashboard_id item
                (record { id = d.id; name = d.name }) read.agenda;
        }
      ]

  unfoldable pub add_list_item : String → ListItem ⊎ Option String → Lists → Lists × Option String
  unfolding patch_list_summary_by_id patch_list_detail_by_id patch_agenda_from_list_detail
  add_list_item list_id (inl item) ls =
      let detailed =
        patch_list_detail_by_id list_id
          (λ detail. record detail {
            items = detail.items ++ item ∷ [];
            item_count = suc detail.item_count;
          })
          ls in
      let summarised =
        patch_list_summary_by_id list_id
          (λ list. some (record list { item_count = suc list.item_count })) detailed in
      (patch_agenda_from_list_detail list_id item summarised, none)
  add_list_item list_id (inr error) ls =
      let message = or_else error "Failed to add item." in thrown message message error ls

  -- `renames` is whether the request held a text.
  unfoldable pub update_list_item :
      String → String → Bool → ListItem ⊎ Option String → Lists → Lists × Option String
  unfolding patch_list_detail_by_id patch_agenda_from_list_detail
  update_list_item list_id item_id renames (inl item) ls =
      let detailed =
        patch_list_detail_by_id list_id
          (λ detail. record detail { items = replaced_item item_id item detail.items }) ls in
      (patch_agenda_from_list_detail list_id item detailed, none)
  update_list_item list_id item_id renames (inr error) ls =
      thrown (if renames then "Failed to rename item." else "Failed to update item.")
        "Failed to update item." error ls

-- `Math.max(0, n - 1)`
unfoldable pub delete_list_item : String → String → Bool → Lists → Lists
unfolding patch_list_summary_by_id patch_list_detail_by_id remove_agenda_items
delete_list_item list_id item_id true ls =
    let detailed =
      patch_list_detail_by_id list_id
        (λ detail. record detail {
          items = filter (λ item. not (str_eq item.id item_id)) detail.items;
          item_count = detail.item_count - 1;
        })
        ls in
    let unlisted = record detailed {
      agenda = remove_agenda_items (item_id ∷ []) detailed.agenda;
    } in
    patch_list_summary_by_id list_id
      (λ list. some (record list { item_count = list.item_count - 1 })) unlisted
delete_list_item list_id item_id false ls = toast "Failed to delete item." ls
