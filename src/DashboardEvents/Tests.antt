-- ===== src/DashboardEvents/Tests.antt =====
-- The readings of a dashboard frame at concrete inputs.
use frontdashboard.Prelude.{◌≡◌, refl, true, false, Bool, some, none, List, [], ◌∷◌, String}
use frontdashboard.Sse.{SseEvent}
use frontdashboard.ChangedFields.{is_only, is_echo_suppressible}
use frontdashboard.DashboardTypes.{Dashboard, DashboardSummary, DashboardWidget}
use frontdashboard.DashboardEvents.{
  sort_dashboard_summaries, patch_widget_config, can_suppress_local_dashboard_echo, affects_trash,
}

abbrev configured : SseEvent
configured = record {
  event_id = 7;
  event_type = "dashboard.updated";
  entity_type = "dashboard";
  entity_id = "a";
  entity_version = 4;
  actor_id = "u";
  created_at = "2026-02";
  payload = record {
    dashboard_id = none;
    changed_fields = some ("widgets" ∷ []);
    share_action = none;
    widget_id = some "w1";
    config = some "{}";
    list_id = none;
    item_ids = none;
    list_ids = none;
    values = none;
    origin_client_id = none;
  };
}

abbrev clock : String → DashboardWidget
clock config = record {
  id = "w1";
  widget_type = "clock";
  resource_type = none;
  resource_id = none;
  config = config;
}

abbrev home : String → Dashboard
home config = record {
  id = "a";
  name = "Home";
  user_id = "u";
  version = 3;
  is_favorite = false;
  is_shared = false;
  can_edit = true;
  can_manage_shares = true;
  layout = [];
  widgets = clock config ∷ [];
}

abbrev summary : String → Bool → String → DashboardSummary
summary id is_favorite updated_at = record {
  id = id;
  name = id;
  user_id = "u";
  version = 3;
  is_favorite = is_favorite;
  is_shared = false;
  can_edit = true;
  can_manage_shares = true;
  updated_at = updated_at;
}

abbrev listing : List DashboardSummary
listing = summary "a" false "2026-01" ∷ summary "b" true "2025-01" ∷ []

-- Any two texts may stand in either order.
abbrev any_order : String → String → Bool
any_order a b = true

runs :
    (can_suppress_local_dashboard_echo configured ≡ true)
    × (affects_trash configured ≡ false)
    × (sort_dashboard_summaries any_order listing
        ≡ summary "b" true "2025-01" ∷ summary "a" false "2026-01" ∷ [])
    × (patch_widget_config (some (home "")) configured ≡ some (home "{}"))
unfolding can_suppress_local_dashboard_echo affects_trash sort_dashboard_summaries
    patch_widget_config is_only is_echo_suppressible
runs = (refl, refl, refl, refl)
