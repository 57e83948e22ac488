-- ===== src/Lists/Events.antt =====
-- frontend/src/resources/listData.ts, `handleListResourceEvent`: what a frame of the server changes.
use frontdashboard.Prelude.{
  String, Bool, true, false, not, ◌&&◌, ◌||◌, Option, none, some, List, [], ◌∷◌, ◌++◌, map, any,
  for_each, if◌then◌else◌, is_some, str_eq, starts_with,
}
use frontdashboard.ListTypes.{ListItem, ListDetail}
use frontdashboard.ListOrder.{order_by_ids}
use frontdashboard.Query.{Cache, update_where}
use frontdashboard.Sse.{
  FieldValue, set_text, set_checked, set_due_date, set_priority, set_category, set_assigned_to,
  set_other, SseEvent, ResourceEvent, resync, frame,
}
use frontdashboard.Lists.{
  Lists, Sent, patch_list_detail_by_id, remove_list_from_caches, read_detail, read_summaries,
  invalidate_details, invalidate_summaries,
}
use frontdashboard.Lists.Reorders.{ordered_detail, ordered_summaries}

-- An id that is there and is not empty.
abbrev pub truthy : Option String → Option String
truthy none = none
truthy (some id) = if str_eq id "" then none else some id

abbrev pub get_affected_list_id : SseEvent → Option String
get_affected_list_id e = if str_eq e.entity_type "list" then some e.entity_id else e.payload.list_id

-- `pickPatchableItemFields`
unfoldable pub pick_patchable_item_fields : List FieldValue → List FieldValue
pick_patchable_item_fields [] = []
pick_patchable_item_fields (set_other field ∷ rest) = pick_patchable_item_fields rest
pick_patchable_item_fields (value ∷ rest) = value ∷ pick_patchable_item_fields rest

-- One field of `{ ...item, ...patch }`
abbrev pub assign : ListItem → FieldValue → ListItem
assign item (set_text v) = record item { text = v }
assign item (set_checked v) = record item { checked = v }
assign item (set_due_date v) = record item { due_date = v }
assign item (set_priority v) = record item { priority = v }
assign item (set_category v) = record item { category = v }
assign item (set_assigned_to v) = record item { assigned_to = v }
assign item (set_other field) = item

unfoldable pub patched_item : List FieldValue → ListItem → ListItem
unfolding pick_patchable_item_fields
patched_item values item = for_each assign item (pick_patchable_item_fields values)

abbrev pub has_item : String → ListDetail → Bool
has_item item_id detail = any (λ item. str_eq item.id item_id) detail.items

abbrev pub with_values : String → List FieldValue → ListDetail → ListDetail
with_values item_id values detail =
    if has_item item_id detail
    then record detail {
      items =
          map (λ item. if str_eq item.id item_id then patched_item values item else item)
            detail.items;
    }
    else detail

-- Whether an updater that runs on the entries of a scope meets data that it cannot patch.
abbrev pub meets : {A : Type 0} → (A → Bool) → String → Cache String A → Bool
meets diverges scope c =
    any (λ e. str_eq e.1.scope scope && elim e.1.state.data_ [ none ↦ false | some d ↦ diverges d ])
      c.entries

-- To patch the detail of a list, or to invalidate it where nothing is held or the data diverges.
unfoldable pub patch_or_invalidate_detail :
    String → (ListDetail → Bool) → (ListDetail → ListDetail) → Lists → Lists × List Sent
unfolding read_detail patch_list_detail_by_id invalidate_details
patch_or_invalidate_detail list_id diverges updater ls =
    let (read, detail) = read_detail list_id ls in
    let diverged = not (is_some detail) || meets diverges list_id read.details in
    let patched = if is_some detail then patch_list_detail_by_id list_id updater read else read in
    if diverged then invalidate_details (λ scope. str_eq scope list_id) patched else (patched, [])

unfoldable pub patch_or_invalidate_summaries : String → List String → Lists → Lists × List Sent
unfolding read_summaries update_where invalidate_summaries order_by_ids
patch_or_invalidate_summaries dashboard_id list_ids ls =
    let (read, lists) = read_summaries dashboard_id ls in
    let diverged =
      not (is_some lists)
      || meets (λ rows. not (is_some (order_by_ids (λ list. list.id) rows list_ids))) dashboard_id
          read.summaries in
    let patched =
      if is_some lists
      then record read {
        summaries =
            update_where (λ scope. str_eq scope dashboard_id)
              (λ state scope. ordered_summaries list_ids state) read.summaries;
      }
      else read in
    if diverged
    then invalidate_summaries (λ scope. str_eq scope dashboard_id) patched
    else (patched, [])

abbrev pub reload_summaries : Bool → Option String → Lists → Lists × List Sent
reload_summaries reloads none ls = (ls, [])
reload_summaries reloads (some id) ls =
    if reloads then invalidate_summaries (λ scope. str_eq scope id) ls else (ls, [])

abbrev pub reload_detail : Option String → Lists × List Sent → Lists × List Sent
reload_detail none (ls, sent) = (ls, sent)
reload_detail (some id) (ls, sent) =
    let (reloaded, requests) = invalidate_details (λ scope. str_eq scope id) ls in
    (reloaded, sent ++ requests)

-- The end of the handler, for the events that are not patched in.
unfoldable pub reload_for : SseEvent → Lists → Lists × List Sent
unfolding invalidate_summaries invalidate_details
reload_for e ls =
    let reloads =
      not (str_eq e.entity_type "list_item")
      || str_eq e.event_type "list.item.created"
      || str_eq e.event_type "list.item.deleted" in
    reload_detail (truthy (get_affected_list_id e))
      (reload_summaries reloads (truthy e.payload.dashboard_id) ls)

-- `list.item.checked` and `list.item.updated`
unfoldable pub handle_item_values : SseEvent → Lists → Lists × List Sent
unfolding patch_or_invalidate_detail reload_for patched_item
handle_item_values e ls = elim (truthy (get_affected_list_id e)) [
  | none ↦ reload_for e ls
  | some list_id ↦ elim e.payload.values [
    | none ↦ reload_for e ls
    | some values ↦
        patch_or_invalidate_detail list_id (λ detail. not (has_item e.entity_id detail))
          (with_values e.entity_id values) ls
  ]
]

-- `list.item.reordered`
unfoldable pub handle_item_order : SseEvent → Lists → Lists × List Sent
unfolding patch_or_invalidate_detail order_by_ids
handle_item_order e ls = elim (truthy (get_affected_list_id e)) [
  | none ↦ (ls, [])
  | some list_id ↦ elim e.payload.item_ids [
    | none ↦ (ls, [])
    | some item_ids ↦
        patch_or_invalidate_detail list_id
          (λ detail. not (is_some (order_by_ids (λ item. item.id) detail.items item_ids)))
          (ordered_detail item_ids) ls
  ]
]

-- `list.reordered`
unfoldable pub handle_list_order : SseEvent → Lists → Lists × List Sent
unfolding patch_or_invalidate_summaries
handle_list_order e ls = elim (truthy e.payload.dashboard_id) [
  | none ↦ (ls, [])
  | some dashboard_id ↦ elim e.payload.list_ids [
    | none ↦ (ls, [])
    | some list_ids ↦ patch_or_invalidate_summaries dashboard_id list_ids ls
  ]
]

-- `list.deleted`
unfoldable pub handle_list_deleted : SseEvent → Lists → Lists × List Sent
unfolding remove_list_from_caches reload_for
handle_list_deleted e ls = elim (truthy (get_affected_list_id e)) [
  | none ↦ reload_for e ls
  | some list_id ↦ (remove_list_from_caches list_id ls, [])
]

-- `own_echo` is whether the frame echoes a write of this tab.
unfoldable pub handle_list_resource_event : ResourceEvent → Bool → Lists → Lists × List Sent
unfolding handle_item_values handle_item_order handle_list_order handle_list_deleted reload_for
    invalidate_summaries invalidate_details
handle_list_resource_event resync own_echo ls =
    let (summarised, first) = invalidate_summaries (λ scope. true) ls in
    let (detailed, second) = invalidate_details (λ scope. true) summarised in
    (detailed, first ++ second)
handle_list_resource_event (frame e) own_echo ls =
    if not (starts_with e.event_type "list.") || own_echo
    then (ls, [])
    else if str_eq e.event_type "list.item.checked" || str_eq e.event_type "list.item.updated"
    then handle_item_values e ls
    else if str_eq e.event_type "list.item.reordered"
    then handle_item_order e ls
    else if str_eq e.event_type "list.reordered"
    then handle_list_order e ls
    else if str_eq e.event_type "list.deleted"
    then handle_list_deleted e ls
    else reload_for e ls
