-- ===== src/Lists/Histories.antt =====
-- What the caches of the lists have gone through, under the helpers of the module.
mod Undo
mod Frames
mod Writes
pub mod Steps
pub mod Resync
use frontdashboard.Prelude.{
  ◌≡◌, String, Bool, true, false, Option, none, some, List, [], ◌∷◌, ◌⊎◌, inl, inr, Bool-cases,
  Option-cases, filter, map, any, str_eq, is_some, not, ◌||◌, if◌then◌else◌, arith, refl,
}
use frontdashboard.ListTypes.{ListItem, ListSummary, ListDetail}
use frontdashboard.ListOrder.{order_by_ids}
use frontdashboard.Sse.{SseEvent, ResourceEvent, resync, frame}
use frontdashboard.Query.{QueryState, Cache, Request, update_where}
use frontdashboard.Query.Coherence.{IsCoherent, IsQuiet}
use frontdashboard.Query.Interleaving.{
  empty_cache, Step, updated, read, invalidated, seeded, signed_out, Reach, here, next,
  Reach-IsCoherent,
}
use frontdashboard.Agenda.{
  AgendaItem, ListName, Agenda, scope_key, max_cached_scopes, on_data, apply_agenda_item_update,
  remove_agenda_items, rename_agenda_list_entries, remove_agenda_items_for_list,
  invalidate_agenda_reminders, handle_agenda_resource_event,
}
use frontdashboard.Lists.{
  Lists, Sent, toast, thrown, patched_detail, patched_summaries, not_found,
  patch_list_summary_by_id, patch_list_detail_by_id, remove_list_from_caches, read_detail,
  read_summaries, invalidate_summaries, invalidate_details, reset_list_data,
}
use frontdashboard.Lists.Mutations.{
  apply_created_list, create_list, update_list_name, delete_list, restore_list,
  patch_agenda_from_list_detail, add_list_item, update_list_item, delete_list_item, with_created,
  with_restored,
}
use frontdashboard.Lists.Reorders.{
  Refusal, conflict, other_error, ordered_summaries, begin_reorder_list_items,
  complete_reorder_list_items, restored_items, begin_reorder_lists, complete_reorder_lists,
  restored_lists,
}
use frontdashboard.Lists.Events.{
  truthy, get_affected_list_id, meets, patch_or_invalidate_detail, patch_or_invalidate_summaries,
  reload_for, reload_summaries, reload_detail, handle_item_values, handle_item_order,
  handle_list_order, handle_list_deleted, handle_list_resource_event,
}

abbrev pub History : {A : Type 0} → Cache String A → Type 0
History = Reach scope_key max_cached_scopes

-- Each of the caches has come about by the operations of the query.
pub record Histories (ls : Lists) : Type 0 where
  pub summaries : History ls.summaries
  pub details : History ls.details
  pub agenda : History ls.agenda

pub patched_summaries-IsQuiet :
    (id : String) (updater : ListSummary → Option ListSummary)
    → IsQuiet scope_key (λ state scope. patched_summaries id updater state)
patched_summaries-IsQuiet id updater state scope l = elim (Option-cases state.data_) [
  | inl e ↦ rw e at l
  | inr (lists, e) ↦ elim (Bool-cases (any (λ list. str_eq list.id id) lists)) [
    | inl p ↦ rw (e, p) at l
    | inr p ↦ rw (e, p) at l
  ]
]

pub patched_detail-IsQuiet :
    (updater : ListDetail → ListDetail)
    → IsQuiet scope_key (λ state scope. patched_detail updater state)
patched_detail-IsQuiet updater state scope l = elim (Option-cases state.data_) [
  | inl e ↦ rw e at l
  | inr (detail, e) ↦ absurd (let m = rw e at l in cc)
]

pub on_data-IsQuiet :
    (change : List AgendaItem → List AgendaItem)
    → IsQuiet scope_key (λ state scope. on_data change state)
on_data-IsQuiet change state scope l = elim (Option-cases state.data_) [
  | inl e ↦ rw e at l
  | inr (entries, e) ↦ rw e at l
]

pub ordered_summaries-IsQuiet :
    (ids : List String) → IsQuiet scope_key (λ state scope. ordered_summaries ids state)
ordered_summaries-IsQuiet ids state scope l = elim (Option-cases state.data_) [
  | inl e ↦ rw e at l
  | inr (lists, e) ↦ elim (Option-cases (order_by_ids (λ list. list.id) lists ids)) [
    | inl o ↦ rw (e, ordered_summaries, o) at l
    | inr (ordered, o) ↦ rw (e, ordered_summaries, o) at l
  ]
]

pub with_restored-IsQuiet :
    (id : String) (list : ListSummary)
    → IsQuiet scope_key (λ state scope. with_restored id list state)
with_restored-IsQuiet id list state scope l = elim (Option-cases state.data_) [
  | inl e ↦ rw e at l
  | inr (lists, e) ↦ rw e at l
]

pub on_toast : (message : String) (ls : Lists) → Histories ls → Histories (toast message ls)
on_toast message ls h = record { summaries = h.summaries; details = h.details; agenda = h.agenda }

module _ (ls : Lists) (h : Histories ls) where
  pub on_summaries :
      (c : Cache String (List ListSummary))
      → Step scope_key max_cached_scopes ls.summaries c
      → Histories (record ls { summaries = c })
  on_summaries c step = record {
    summaries = next h.summaries step;
    details = h.details;
    agenda = h.agenda;
  }

  pub on_details :
      (c : Cache String ListDetail)
      → Step scope_key max_cached_scopes ls.details c
      → Histories (record ls { details = c })
  on_details c step = record {
    summaries = h.summaries;
    details = next h.details step;
    agenda = h.agenda;
  }

  pub on_agenda :
      (c : Agenda)
      → Step scope_key max_cached_scopes ls.agenda c
      → Histories (record ls { agenda = c })
  on_agenda c step = record {
    summaries = h.summaries;
    details = h.details;
    agenda = next h.agenda step;
  }

  pub on_patch_summary :
      (id : String) (updater : ListSummary → Option ListSummary)
      → Histories (patch_list_summary_by_id id updater ls)
  unfolding patch_list_summary_by_id
  on_patch_summary id updater = on_summaries _ (
      updated (λ scope. true) (λ state scope. patched_summaries id updater state)
        (patched_summaries-IsQuiet id updater))

  pub on_patch_detail :
      (id : String) (updater : ListDetail → ListDetail)
      → Histories (patch_list_detail_by_id id updater ls)
  unfolding patch_list_detail_by_id
  on_patch_detail id updater = on_details _ (updated _ _ (patched_detail-IsQuiet updater))

  pub on_read_detail : (id : String) → Histories (read_detail id ls).0
  unfolding read_detail
  on_read_detail id = on_details _ (read id)

  pub on_read_summaries : (id : String) → Histories (read_summaries id ls).0
  unfolding read_summaries
  on_read_summaries id = on_summaries _ (read id)

  pub on_invalidate_summaries :
      (holds : String → Bool) → Histories (invalidate_summaries holds ls).0
  unfolding invalidate_summaries
  on_invalidate_summaries holds = on_summaries _ (invalidated holds true none)

  pub on_invalidate_details : (holds : String → Bool) → Histories (invalidate_details holds ls).0
  unfolding invalidate_details
  on_invalidate_details holds = on_details _ (invalidated holds true none)

pub on_remove :
    (id : String) (ls : Lists) → Histories ls → Histories (remove_list_from_caches id ls)
unfolding remove_list_from_caches
on_remove id ls h =
    on_details _ (on_patch_summary ls h id (λ list. none)) _
      (updated _ (λ state scope. not_found) (λ s scope l. absurd (cc)))

pub on_order :
    (id : String) (ids : List String) (ls : Lists)
    → Histories ls
    → Histories (record ls {
      summaries =
          update_where
            (λ scope. str_eq scope id)
            (λ state scope. ordered_summaries ids state)
            ls.summaries;
    })
on_order id ids ls h = on_summaries ls h _ (updated _ _ (ordered_summaries-IsQuiet ids))
