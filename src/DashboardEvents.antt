-- ===== src/DashboardEvents.antt =====
-- frontend/src/utils/dashboard/dashboardEvents.ts: what an activity frame means for the dashboard
-- store. `locale_leq a b` stands for `a.localeCompare(b) <= 0`.
pub mod Summaries
pub mod Widgets
mod Tests
use frontdashboard.Prelude.{
  ℕ, String, Bool, true, false, not, ◌&&◌, ◌||◌, ◌==◌, Option, none, some, List, [], ◌∷◌, str_eq,
  opt_eq, if◌then◌else◌, max, map, any, includes, or_else,
}
use frontdashboard.Prelude.Sort.{sort}
use frontdashboard.ChangedFields.{
  is_only, is_fully_applied_locally, moves_dashboard_row, is_echo_suppressible, layout, widgets,
}
use frontdashboard.Sse.{SseEvent, is_own_frame}
use frontdashboard.DashboardTypes.{Dashboard, DashboardSummary, DashboardWidget}

unfoldable pub get_event_dashboard_id : SseEvent → Option String
get_event_dashboard_id event =
    if str_eq event.entity_type "dashboard"
    then some event.entity_id
    else event.payload.dashboard_id

abbrev pub changed_fields_of : SseEvent → List String
changed_fields_of event = or_else event.payload.changed_fields []

unfoldable pub is_dashboard_share_event : SseEvent → Bool
is_dashboard_share_event event =
    str_eq event.event_type "dashboard.share_added"
    || str_eq event.event_type "dashboard.share_updated"
    || str_eq event.event_type "dashboard.share_removed"

unfoldable pub is_layout_only_dashboard_event : SseEvent → Bool
is_layout_only_dashboard_event event =
    str_eq event.event_type "dashboard.updated" && is_only (changed_fields_of event) layout

unfoldable pub can_skip_dashboard_summary_reload : SseEvent → Bool
can_skip_dashboard_summary_reload event =
    str_eq event.event_type "dashboard.updated"
    && is_fully_applied_locally (changed_fields_of event)

-- `shouldApplyLocalDashboardSummaryTouch`
unfoldable pub should_touch : SseEvent → Bool
should_touch event =
    str_eq event.event_type "dashboard.updated"
    && is_fully_applied_locally (changed_fields_of event)
    && moves_dashboard_row (changed_fields_of event)

-- The comparison of `sortDashboardSummaries`: favorites first, then the latest change first.
abbrev pub summary_leq : (String → String → Bool) → DashboardSummary → DashboardSummary → Bool
summary_leq locale_leq a b =
    if a.is_favorite
    then if b.is_favorite then locale_leq b.updated_at a.updated_at else true
    else if b.is_favorite
    then false
    else locale_leq b.updated_at a.updated_at

unfoldable pub sort_dashboard_summaries :
    (String → String → Bool) → List DashboardSummary → List DashboardSummary
sort_dashboard_summaries locale_leq summaries = sort (summary_leq locale_leq) summaries

-- The test that leaves a summary as it is, in the loop of `applyLocalDashboardSummaryUpdate`.
abbrev pub is_current : SseEvent → DashboardSummary → Bool
is_current event summary =
    summary.version == max event.entity_version summary.version
    && str_eq summary.updated_at event.created_at

abbrev pub touch : String → SseEvent → DashboardSummary → DashboardSummary
touch dashboard_id event summary =
    if str_eq summary.id dashboard_id
    then if is_current event summary then summary else record summary {
      version = max event.entity_version summary.version;
      updated_at = event.created_at;
    }
    else summary

-- `didChange`
abbrev pub touches : String → SseEvent → List DashboardSummary → Bool
touches dashboard_id event =
    any (λ summary. str_eq summary.id dashboard_id && not (is_current event summary))

-- An absent and an empty dashboard id both leave the summaries alone.
unfoldable pub apply_local_dashboard_summary_update :
    (String → String → Bool) → List DashboardSummary → SseEvent → List DashboardSummary
unfolding should_touch get_event_dashboard_id sort_dashboard_summaries
apply_local_dashboard_summary_update locale_leq summaries event =
    if not (should_touch event) then summaries else elim (get_event_dashboard_id event) [
      | none ↦ summaries
      | some dashboard_id ↦
          if str_eq dashboard_id "" || not (touches dashboard_id event summaries)
          then summaries
          else sort_dashboard_summaries locale_leq (map (touch dashboard_id event) summaries)
    ]

unfoldable pub can_suppress_local_dashboard_echo : SseEvent → Bool
can_suppress_local_dashboard_echo event =
    if str_eq event.event_type "dashboard.created" || str_eq event.event_type "dashboard.deleted"
    then true
    else if str_eq event.event_type "dashboard.share_updated"
    then true
    else if str_eq event.event_type "dashboard.share_removed"
    then opt_eq event.payload.share_action "left"
    else if not (str_eq event.event_type "dashboard.updated")
    then false
    else is_echo_suppressible (changed_fields_of event)

unfoldable pub affects_trash : SseEvent → Bool
affects_trash event =
    str_eq event.event_type "dashboard.deleted"
    || str_eq event.event_type "dashboard.updated" && includes (changed_fields_of event) "restored"

abbrev pub with_config : String → String → DashboardWidget → DashboardWidget
with_config widget_id config widget =
    if str_eq widget.id widget_id then record widget { config = config } else widget

-- The last lines of `patchWidgetConfig`, once the frame names a widget and its config.
abbrev pub patch_named : Dashboard → String → String → Option Dashboard
patch_named dashboard widget_id config =
    if str_eq widget_id "" || not (any (λ w. str_eq w.id widget_id) dashboard.widgets)
    then none
    else some (record dashboard { widgets = map (with_config widget_id config) dashboard.widgets })

-- A config is an object, so a present one counts as true.
unfoldable pub patch_widget_config : Option Dashboard → SseEvent → Option Dashboard
patch_widget_config none event = none
patch_widget_config (some dashboard) event =
    if not (is_only (changed_fields_of event) widgets) then none else elim event.payload.widget_id [
      | none ↦ none
      | some widget_id ↦ elim event.payload.config [
        | none ↦ none
        | some config ↦ patch_named dashboard widget_id config
      ]
    ]
