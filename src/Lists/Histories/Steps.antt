-- ===== src/Lists/Histories/Steps.antt =====
-- Every order of calls, responses and frames, for the lists and the agenda together.
use frontdashboard.Prelude.{
  String, Bool, Option, none, List, [], ◌⊎◌, inl, inr, true, not, ◌||◌, Bool-cases, starts_with,
}
use frontdashboard.ListTypes.{ListItem, ListSummary, ListDetail}
use frontdashboard.Sse.{ResourceEvent, resync, frame}
use frontdashboard.Query.{Cache}
use frontdashboard.Query.Coherence.{IsCoherent}
use frontdashboard.Query.Interleaving.{
  signed_out as query_signed_out, empty_cache, Step, invalidated, here, Reach-IsCoherent,
}
use frontdashboard.Agenda.{
  Agenda, scope_key, max_cached_scopes, names_dashboard, handle_agenda_resource_event,
}
use frontdashboard.Lists.{Lists, reset_list_data}
use frontdashboard.Lists.Mutations.{
  create_list, update_list_name, delete_list, restore_list, add_list_item, update_list_item,
  delete_list_item,
}
use frontdashboard.Lists.Reorders.{
  Refusal, ordered_detail, begin_reorder_list_items, complete_reorder_list_items,
  begin_reorder_lists, complete_reorder_lists,
}
use frontdashboard.Lists.Events.{handle_list_resource_event}
use frontdashboard.Lists.Histories.{
  Histories, on_summaries, on_details, on_agenda, on_read_detail, on_read_summaries,
  on_patch_detail, on_order,
}
use frontdashboard.Lists.Histories.Undo.{on_reorder_items, on_reorder_lists}
use frontdashboard.Lists.Histories.Frames.{on_event}
use frontdashboard.Lists.Histories.Writes.{
  on_created, on_renamed, on_deleted, on_restored, on_added, on_updated, on_item_deleted,
}

abbrev pub no_lists : Lists
no_lists = record {
  summaries = empty_cache;
  details = empty_cache;
  agenda = empty_cache;
  toasts = [];
}

-- What happens to the caches: the response to a write, a reorder begun or answered, a frame, a sign
-- out, or any operation of a query by itself, as of a component that is mounted or a response.
pub data ListStep (lt : String → String → Bool) (today : String) (ls : Lists) : Lists → Type 0 where
  created : (r : ListSummary ⊎ Option String) → ListStep lt today ls (create_list r ls)
  renamed :
      (id : String) (r : ListSummary ⊎ Option String)
      → ListStep lt today ls (update_list_name id r ls).0
  deleted :
      (id : String) (r : Option (Option String)) → ListStep lt today ls (delete_list id r ls).0
  restored :
      (id dashboard_id : String) (r : ListSummary ⊎ Option String)
      → ListStep lt today ls (restore_list id dashboard_id r ls).0.0
  item_added :
      (id : String) (r : ListItem ⊎ Option String)
      → ListStep lt today ls (add_list_item lt today id r ls).0
  item_updated :
      (id item_id : String) (renames : Bool) (r : ListItem ⊎ Option String)
      → ListStep lt today ls (update_list_item lt today id item_id renames r ls).0
  item_deleted :
      (id item_id : String) (succeeded : Bool)
      → ListStep lt today ls (delete_list_item id item_id succeeded ls)
  items_moved :
      (id : String) (ids : List String)
      → ListStep lt today ls (begin_reorder_list_items id ids ls).0
  items_answered :
      (id : String) (previous : Option (List ListItem)) (refusal : Option Refusal)
      → ListStep lt today ls (complete_reorder_list_items id previous refusal ls).0
  lists_moved :
      (id : String) (ids : List String) → ListStep lt today ls (begin_reorder_lists id ids ls).0
  lists_answered :
      (id : String) (previous : Option (List ListSummary)) (refusal : Option Refusal)
      → ListStep lt today ls (complete_reorder_lists id previous refusal ls).0
  framed :
      (e : ResourceEvent) (own_echo : Bool)
      → ListStep lt today ls (handle_list_resource_event e own_echo ls).0
  framed_agenda :
      (e : ResourceEvent) (own_echo : Bool)
      → ListStep lt today ls
          (record ls { agenda = (handle_agenda_resource_event e own_echo ls.agenda).0 })
  signed_out : ListStep lt today ls (reset_list_data ls)
  summaries_used :
      (c : Cache String (List ListSummary))
      → Step scope_key max_cached_scopes ls.summaries c
      → ListStep lt today ls (record ls { summaries = c })
  details_used :
      (c : Cache String ListDetail)
      → Step scope_key max_cached_scopes ls.details c
      → ListStep lt today ls (record ls { details = c })
  agenda_used :
      (c : Agenda)
      → Step scope_key max_cached_scopes ls.agenda c
      → ListStep lt today ls (record ls { agenda = c })

pub data ListReach (lt : String → String → Bool) (today : String) : Lists → Type 0 where
  start : ListReach lt today no_lists
  after :
      {ls ls' : Lists} → ListReach lt today ls → ListStep lt today ls ls' → ListReach lt today ls'

module _ (lt : String → String → Bool) (today : String) where
  on_agenda_event :
      (e : ResourceEvent) (own : Bool) (ls : Lists)
      → Histories ls
      → Histories (record ls { agenda = (handle_agenda_resource_event e own ls.agenda).0 })
  unfolding handle_agenda_resource_event
  on_agenda_event resync own ls h = on_agenda ls h _ (invalidated (λ scope. true) true none)
  on_agenda_event (frame e) own ls h =
      elim (Bool-cases (own || not (starts_with e.event_type "list."))) [
        | inl p ↦ rw (handle_agenda_resource_event, p) h
        | inr p ↦
            rw (handle_agenda_resource_event, p)
              (on_agenda ls h _ (invalidated (names_dashboard e) true none))
      ]

  on_items_moved :
      (id : String) (ids : List String) (ls : Lists)
      → Histories ls
      → Histories (begin_reorder_list_items id ids ls).0
  unfolding begin_reorder_list_items
  on_items_moved id ids ls h = on_patch_detail _ (on_read_detail ls h id) id (ordered_detail ids)

  on_lists_moved :
      (id : String) (ids : List String) (ls : Lists)
      → Histories ls
      → Histories (begin_reorder_lists id ids ls).0
  unfolding begin_reorder_lists
  on_lists_moved id ids ls h = on_order id ids _ (on_read_summaries ls h id)

  step-Histories : {ls ls' : Lists} → Histories ls → ListStep lt today ls ls' → Histories ls'
  unfolding create_list reset_list_data
  step-Histories {ls} h (created (inl list)) = on_created list ls h
  step-Histories {ls} h (created (inr error)) = h
  step-Histories {ls} h (renamed id r) = on_renamed id r ls h
  step-Histories {ls} h (deleted id r) = on_deleted id r ls h
  step-Histories {ls} h (restored id dashboard_id r) = on_restored id dashboard_id r ls h
  step-Histories {ls} h (item_added id r) = on_added lt today id r ls h
  step-Histories {ls} h (item_updated id item_id renames r) =
      on_updated lt today id item_id renames r ls h
  step-Histories {ls} h (item_deleted id item_id succeeded) =
      on_item_deleted id item_id succeeded ls h
  step-Histories {ls} h (items_moved id ids) = on_items_moved id ids ls h
  step-Histories {ls} h (items_answered id previous refusal) =
      on_reorder_items id previous refusal ls h
  step-Histories {ls} h (lists_moved id ids) = on_lists_moved id ids ls h
  step-Histories {ls} h (lists_answered id previous refusal) =
      on_reorder_lists id previous refusal ls h
  step-Histories {ls} h (framed e own_echo) = on_event e own_echo ls h
  step-Histories {ls} h (framed_agenda e own_echo) = on_agenda_event e own_echo ls h
  step-Histories {ls} h signed_out =
      on_details _ (on_summaries ls h _ query_signed_out) _ query_signed_out
  step-Histories {ls} h (summaries_used c s) = on_summaries ls h c s
  step-Histories {ls} h (details_used c s) = on_details ls h c s
  step-Histories {ls} h (agenda_used c s) = on_agenda ls h c s

  reach-Histories : {ls : Lists} → ListReach lt today ls → Histories ls
  reach-Histories start = record { summaries = here; details = here; agenda = here }
  reach-Histories (after r s) = step-Histories (reach-Histories r) s

  -- In whatever order writes are answered, frames arrive, rows are dragged, components use the caches
  -- and users sign out: in the caches of summaries and of details and in the agenda, no key is held
  -- twice, every entry is under the key of its scope, and an entry shows a spinner only while a
  -- request for it is in flight.
  pub ListReach-IsCoherent :
      {ls : Lists}
      → ListReach lt today ls
      → IsCoherent scope_key ls.summaries
        × IsCoherent scope_key ls.details
        × IsCoherent scope_key ls.agenda
  ListReach-IsCoherent r =
      let h = reach-Histories r in
      (
        Reach-IsCoherent scope_key max_cached_scopes h.summaries,
        Reach-IsCoherent scope_key max_cached_scopes h.details,
        Reach-IsCoherent scope_key max_cached_scopes h.agenda,
      )
