-- ===== src/Board/Events.antt =====
-- frontend/src/stores/dashboard.ts, `handleDashboardEvent`, `handleContentEvent` and
-- `resolveConflict`: the new state, and the loads that are started or scheduled, in order. A handler
-- runs in one tick; what it awaits afterwards changes nothing more.
pub mod Routing
pub mod Content
use frontdashboard.Prelude.{
  ℕ, suc, String, Bool, true, false, not, ◌&&◌, ◌||◌, Option, none, some, List, [], ◌∷◌, ◌++◌,
  if◌then◌else◌, str_eq, opt_eq, any, filter, leb, ltb, length,
}
use frontdashboard.LoadOptions.{LoadDashboardOptions}
use frontdashboard.DashboardTypes.{Dashboard, DashboardSummary, DashboardWidget, LayoutItem}
use frontdashboard.Sse.{SseEvent, ResourceEvent, resync, frame, is_own_frame}
use frontdashboard.DashboardEvents.{
  get_event_dashboard_id, is_layout_only_dashboard_event, can_skip_dashboard_summary_reload,
  is_dashboard_share_event, can_suppress_local_dashboard_echo, affects_trash,
  apply_local_dashboard_summary_update, patch_widget_config,
}
use frontdashboard.Board.{State}

pub data Effect : Type 0 where
  reload_summaries : Effect
  schedule_summaries : Effect
  reload_trash : Effect
  open_dashboard : String → LoadDashboardOptions → Effect
  schedule_dashboard : String → LoadDashboardOptions → Effect

-- The id of the held dashboard, if it is not empty.
unfoldable pub active_id : Option Dashboard → Option String
active_id none = none
active_id (some held) = if str_eq held.id "" then none else some held.id

abbrev pub is_empty : List DashboardSummary → Bool
is_empty [] = true
is_empty (_ ∷ _) = false

-- The listing was read, is being read, or has rows.
abbrev pub has_listing : State → Bool
has_listing s = s.summaries_loaded || s.summaries_loading || not (is_empty s.summaries)

abbrev pub when : Bool → Effect → List Effect
when b effect = if b then effect ∷ [] else []

abbrev pub background : Bool → LoadDashboardOptions
background surface = record { background = some true; surface_access_loss = some surface }

-- A resync reloads all that is held.
unfoldable pub handle_resync : State → List Effect
unfolding active_id
handle_resync s =
    when (has_listing s) reload_summaries
    ++ when s.trash_loaded reload_trash
    ++ elim (active_id s.dashboard) [
      | none ↦ []
      | some id ↦ open_dashboard id (background true) ∷ []
    ]

abbrev pub suppresses : String → Option String → SseEvent → Bool
suppresses client user event =
    is_own_frame client event user && can_suppress_local_dashboard_echo event

-- The part of the handler for the listing.
unfoldable pub update_listing :
    (String → String → Bool) → Bool → SseEvent → State → State × List Effect
update_listing locale_leq suppressed event s =
    if not (has_listing s)
    then (s, [])
    else if can_skip_dashboard_summary_reload event
    then (
      record s { summaries = apply_local_dashboard_summary_update locale_leq s.summaries event },
      [],
    )
    else (s, when (not suppressed) schedule_summaries)

-- The held dashboard is up to date for a frame that only moves widgets.
abbrev pub has_layout_of : SseEvent → Option Dashboard → Bool
has_layout_of event none = false
has_layout_of event (some held) =
    is_layout_only_dashboard_event event && leb event.entity_version held.version

-- The part for a frame about the held dashboard.
unfoldable pub update_held : Bool → String → SseEvent → State → State × List Effect
update_held suppressed id event s =
    if str_eq event.event_type "dashboard.deleted"
    then (record s { dashboard = none; load_error = true; loading = false; conflict = false }, [])
    else if suppressed || has_layout_of event s.dashboard
    then (s, [])
    else elim (patch_widget_config s.dashboard event) [
      | some patched ↦ (record s { dashboard = some patched }, [])
      | none ↦ (s, schedule_dashboard id (background (is_dashboard_share_event event)) ∷ [])
    ]

-- The held dashboard that the frame is about.
unfoldable pub concerned : SseEvent → State → Option String
unfolding active_id get_event_dashboard_id
concerned event s = elim (active_id s.dashboard) [
  | none ↦ none
  | some id ↦ if opt_eq (get_event_dashboard_id event) id then some id else none
]

unfoldable pub handle_frame :
    (String → String → Bool) → String → Option String → SseEvent → State → State × List Effect
unfolding update_listing update_held concerned
handle_frame locale_leq client user event s =
    let suppressed = suppresses client user event in
    let trash = when (affects_trash event && not suppressed && s.trash_loaded) reload_trash in
    let listed = update_listing locale_leq suppressed event s in
    elim (concerned event s) [
      | none ↦ (listed.0, trash ++ listed.1)
      | some id ↦
          let held = update_held suppressed id event listed.0 in
          (held.0, trash ++ (listed.1 ++ held.1))
    ]

unfoldable pub handle_dashboard_event :
    (String → String → Bool) → String → Option String → ResourceEvent → State → State × List Effect
unfolding handle_resync handle_frame
handle_dashboard_event locale_leq client user resync s = (s, handle_resync s)
handle_dashboard_event locale_leq client user (frame event) s =
    handle_frame locale_leq client user event s

abbrev pub shows_list : String → DashboardWidget → Bool
shows_list list_id widget = opt_eq widget.resource_type "list" && opt_eq widget.resource_id list_id

-- `removedWidgetIds.has(item.i)`
abbrev pub is_removed : String → List DashboardWidget → LayoutItem → Bool
is_removed list_id widgets item = any (λ w. shows_list list_id w && str_eq w.id item.i) widgets

unfoldable pub without_list : String → Dashboard → Dashboard
without_list list_id held = record held {
  widgets = filter (λ w. not (shows_list list_id w)) held.widgets;
  layout = filter (λ item. not (is_removed list_id held.widgets item)) held.layout;
  version =
      if ltb 0 (length (filter (shows_list list_id) held.widgets))
      then suc held.version
      else held.version;
}

abbrev pub on_list_deleted : SseEvent → Option Dashboard → Option Dashboard
on_list_deleted event none = none
on_list_deleted event (some held) =
    if str_eq event.event_type "list.deleted"
    then some (without_list event.entity_id held)
    else some held

unfoldable pub handle_content_event : SseEvent → State → State
unfolding concerned without_list
handle_content_event event s = elim (concerned event s) [
  | none ↦ s
  | some id ↦ record s { dashboard = on_list_deleted event s.dashboard }
]

unfoldable pub resolve_conflict : State → State × List Effect
resolve_conflict s = (
  record s { conflict = false },
  elim s.dashboard [
    | none ↦ []
    | some held ↦
        open_dashboard held.id (record { background = none; surface_access_loss = none }) ∷ []
  ],
)
