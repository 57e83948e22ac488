-- ===== src/Lists/Histories/Frames.antt =====
-- The caches under the frames of the server.
use frontdashboard.Prelude.{
  String, Bool, true, false, Option, none, some, List, inl, inr, Bool-cases, Option-cases, str_eq,
  starts_with, is_some, not, ◌||◌, if◌then◌else◌,
}
use frontdashboard.ListTypes.{ListDetail}
use frontdashboard.ListOrder.{order_by_ids}
use frontdashboard.Sse.{SseEvent, ResourceEvent, resync, frame}
use frontdashboard.Query.{update_where}
use frontdashboard.Lists.{Lists, Sent, patch_list_detail_by_id, read_detail, read_summaries}
use frontdashboard.Lists.Reorders.{ordered_summaries}
use frontdashboard.Lists.Events.{
  truthy, get_affected_list_id, meets, patch_or_invalidate_detail, patch_or_invalidate_summaries,
  reload_for, reload_summaries, reload_detail, handle_item_values, handle_item_order,
  handle_list_order, handle_list_deleted, handle_list_resource_event,
}
use frontdashboard.Lists.Histories.{
  on_patch_detail, on_read_detail, on_read_summaries, on_invalidate_summaries,
  on_invalidate_details, on_remove, on_order, Histories,
}

-- One of two results.
on_if :
    (x y : Lists × List Sent) (test : Bool)
    → Histories x.0
    → Histories y.0
    → Histories (if test then x else y).0
on_if x y true p q = p
on_if x y false p q = q

on_patch_or_invalidate :
    (id : String) (diverges : ListDetail → Bool) (updater : ListDetail → ListDetail) (ls : Lists)
    → Histories ls
    → Histories (patch_or_invalidate_detail id diverges updater ls).0
unfolding patch_or_invalidate_detail
on_patch_or_invalidate id diverges updater ls h =
    let (seen, detail) = read_detail id ls in
    let r : Histories seen = on_read_detail ls h id in
    let diverged = not (is_some detail) || meets diverges id seen.details in
    let patched = if is_some detail then patch_list_detail_by_id id updater seen else seen in
    let p : Histories patched = elim (Bool-cases (is_some detail)) [
      | inl e ↦ rw e (on_patch_detail seen r id updater)
      | inr e ↦ rw e r
    ] in
    elim (Bool-cases diverged) [
      | inl e ↦ rw (patch_or_invalidate_detail, e) (on_invalidate_details patched p _)
      | inr e ↦ rw (patch_or_invalidate_detail, e) p
    ]

on_patch_or_invalidate_rows :
    (id : String) (ids : List String) (ls : Lists)
    → Histories ls
    → Histories (patch_or_invalidate_summaries id ids ls).0
unfolding patch_or_invalidate_summaries
on_patch_or_invalidate_rows id ids ls h =
    let (seen, lists) = read_summaries id ls in
    let r : Histories seen = on_read_summaries ls h id in
    let diverged =
      not (is_some lists)
      || meets (λ rows. not (is_some (order_by_ids (λ list. list.id) rows ids))) id
          seen.summaries in
    let ordered = record seen {
      summaries =
          update_where (λ scope. str_eq scope id) (λ state scope. ordered_summaries ids state)
            seen.summaries;
    } in
    let patched = if is_some lists then ordered else seen in
    let p : Histories patched = elim (Bool-cases (is_some lists)) [
      | inl e ↦ rw e (on_order id ids seen r)
      | inr e ↦ rw e r
    ] in
    elim (Bool-cases diverged) [
      | inl e ↦ rw (patch_or_invalidate_summaries, e) (on_invalidate_summaries patched p _)
      | inr e ↦ rw (patch_or_invalidate_summaries, e) p
    ]

on_reload_summaries :
    (reloads : Bool) (id : Option String) (ls : Lists)
    → Histories ls
    → Histories (reload_summaries reloads id ls).0
on_reload_summaries reloads none ls h = h
on_reload_summaries true (some id) ls h = on_invalidate_summaries ls h _
on_reload_summaries false (some id) ls h = h

on_reload_detail :
    (id : Option String) (r : Lists × List Sent) → Histories r.0 → Histories (reload_detail id r).0
on_reload_detail none r h = h
on_reload_detail (some id) r h = on_invalidate_details r.0 h _

on_reload : (e : SseEvent) (ls : Lists) → Histories ls → Histories (reload_for e ls).0
unfolding reload_for
on_reload e ls h =
    on_reload_detail (truthy (get_affected_list_id e)) _ (on_reload_summaries _ _ ls h)

on_values : (e : SseEvent) (ls : Lists) → Histories ls → Histories (handle_item_values e ls).0
unfolding handle_item_values
on_values e ls h = elim (Option-cases (truthy (get_affected_list_id e))) [
  | inl n ↦ rw (handle_item_values, n) (on_reload e ls h)
  | inr (id, n) ↦ elim (Option-cases e.payload.values) [
    | inl v ↦ rw (handle_item_values, n, v) (on_reload e ls h)
    | inr (values, v) ↦ rw (handle_item_values, n, v) (on_patch_or_invalidate id _ _ ls h)
  ]
]

on_item_order : (e : SseEvent) (ls : Lists) → Histories ls → Histories (handle_item_order e ls).0
unfolding handle_item_order
on_item_order e ls h = elim (Option-cases (truthy (get_affected_list_id e))) [
  | inl n ↦ rw (handle_item_order, n) h
  | inr (id, n) ↦ elim (Option-cases e.payload.item_ids) [
    | inl v ↦ rw (handle_item_order, n, v) h
    | inr (ids, v) ↦ rw (handle_item_order, n, v) (on_patch_or_invalidate id _ _ ls h)
  ]
]

on_list_order : (e : SseEvent) (ls : Lists) → Histories ls → Histories (handle_list_order e ls).0
unfolding handle_list_order
on_list_order e ls h = elim (Option-cases (truthy e.payload.dashboard_id)) [
  | inl n ↦ rw (handle_list_order, n) h
  | inr (id, n) ↦ elim (Option-cases e.payload.list_ids) [
    | inl v ↦ rw (handle_list_order, n, v) h
    | inr (ids, v) ↦ rw (handle_list_order, n, v) (on_patch_or_invalidate_rows id ids ls h)
  ]
]

on_deleted : (e : SseEvent) (ls : Lists) → Histories ls → Histories (handle_list_deleted e ls).0
unfolding handle_list_deleted
on_deleted e ls h = elim (Option-cases (truthy (get_affected_list_id e))) [
  | inl n ↦ rw (handle_list_deleted, n) (on_reload e ls h)
  | inr (id, n) ↦ rw (handle_list_deleted, n) (on_remove id ls h)
]

pub on_event :
    (e : ResourceEvent) (own : Bool) (ls : Lists)
    → Histories ls
    → Histories (handle_list_resource_event e own ls).0
unfolding handle_list_resource_event
on_event resync own ls h =
    on_invalidate_details _ (on_invalidate_summaries ls h (λ scope. true)) (λ scope. true)
on_event (frame e) own ls h = on_if _ _ (not (starts_with e.event_type "list.") || own) h (
    on_if _ _ (str_eq e.event_type "list.item.checked" || str_eq e.event_type "list.item.updated")
      (on_values e ls h)
      (on_if _ _ (str_eq e.event_type "list.item.reordered") (on_item_order e ls h) (
        on_if _ _ (str_eq e.event_type "list.reordered") (on_list_order e ls h)
          (on_if _ _ (str_eq e.event_type "list.deleted") (on_deleted e ls h) (on_reload e ls h)))))
