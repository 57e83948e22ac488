-- ===== src/Lists/Reorders.antt =====
-- frontend/src/resources/listData.ts: the reorders of this tab, shown at once and undone where the
-- server refuses them.
use frontdashboard.Prelude.{String, Option, none, some, List, [], str_eq}
use frontdashboard.ListTypes.{ListItem, ListSummary, ListDetail}
use frontdashboard.ListOrder.{order_by_ids}
use frontdashboard.Query.{QueryState, update_where}
use frontdashboard.Lists.{
  Lists, Sent, toast, patch_list_detail_by_id, read_detail, read_summaries, invalidate_details,
  invalidate_summaries,
}

-- How the server refuses an order: as one of other rows than its own (409), or otherwise.
pub data Refusal : Type 0 where
  conflict other_error : Refusal

abbrev pub ordered_detail : List String → ListDetail → ListDetail
ordered_detail ordered_ids detail = elim (order_by_ids (λ item. item.id) detail.items ordered_ids) [
  | none ↦ detail
  | some items ↦ record detail { items = items }
]

abbrev pub ordered_summaries :
    List String → QueryState (List ListSummary) → QueryState (List ListSummary)
ordered_summaries ordered_ids state = elim state.data_ [
  | none ↦ state
  | some lists ↦ elim (order_by_ids (λ list. list.id) lists ordered_ids) [
    | none ↦ state
    | some ordered ↦ record state { data_ = some ordered }
  ]
]

abbrev pub items_of : Option ListDetail → Option (List ListItem)
items_of none = none
items_of (some detail) = some detail.items

-- `reorderListItems` up to its request, with the items to go back to.
unfoldable pub begin_reorder_list_items :
    String → List String → Lists → Lists × Option (List ListItem)
unfolding read_detail patch_list_detail_by_id order_by_ids
begin_reorder_list_items list_id ordered_ids ls =
    let (read, detail) = read_detail list_id ls in
    (patch_list_detail_by_id list_id (ordered_detail ordered_ids) read, items_of detail)

abbrev pub restored_items : String → Option (List ListItem) → Lists → Lists
restored_items list_id none ls = ls
restored_items list_id (some previous) ls =
    patch_list_detail_by_id list_id (λ detail. record detail { items = previous }) ls

unfoldable pub complete_reorder_list_items :
    String → Option (List ListItem) → Option Refusal → Lists → Lists × List Sent
unfolding patch_list_detail_by_id invalidate_details
complete_reorder_list_items list_id previous none ls = (ls, [])
complete_reorder_list_items list_id previous (some conflict) ls =
    let (invalidated, sent) =
      invalidate_details (λ scope. str_eq scope list_id) (restored_items list_id previous ls) in
    (toast "Could not save order — refreshed." invalidated, sent)
complete_reorder_list_items list_id previous (some other_error) ls =
    (toast "Couldn't save the new order." (restored_items list_id previous ls), [])

-- `reorderLists` up to its request, with the rows to go back to.
unfoldable pub begin_reorder_lists :
    String → List String → Lists → Lists × Option (List ListSummary)
unfolding read_summaries update_where order_by_ids
begin_reorder_lists dashboard_id ordered_ids ls =
    let (read, previous) = read_summaries dashboard_id ls in
    (
      record read {
        summaries =
            update_where (λ scope. str_eq scope dashboard_id)
              (λ state scope. ordered_summaries ordered_ids state) read.summaries;
      },
      previous,
    )

abbrev pub restored_lists : String → Option (List ListSummary) → Lists → Lists
restored_lists dashboard_id none ls = ls
restored_lists dashboard_id (some previous) ls = record ls {
  summaries =
      update_where (λ scope. str_eq scope dashboard_id)
        (λ state scope. record state { data_ = some previous }) ls.summaries;
}

unfoldable pub complete_reorder_lists :
    String → Option (List ListSummary) → Option Refusal → Lists → Lists × List Sent
unfolding update_where invalidate_summaries
complete_reorder_lists dashboard_id previous none ls = (ls, [])
complete_reorder_lists dashboard_id previous (some conflict) ls =
    let (invalidated, sent) =
      invalidate_summaries (λ scope. str_eq scope dashboard_id)
        (restored_lists dashboard_id previous ls) in
    (toast "Could not save order — refreshed." invalidated, sent)
complete_reorder_lists dashboard_id previous (some other_error) ls =
    (toast "Couldn't save the new order." (restored_lists dashboard_id previous ls), [])
