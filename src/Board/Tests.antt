-- ===== src/Board/Tests.antt =====
-- The dashboard store on concrete states.
use frontdashboard.Prelude.{
  opt_eq, ℕ, ◌≡◌, refl, String, Bool, true, false, not, ◌&&◌, Option, none, some, [], ◌∷◌, inl, inr,
  any, if◌then◌else◌, suc,
}
use frontdashboard.Prelude.Sort.{IsTotal}
use frontdashboard.LoadOptions.{
  NormalizedOptions, dashboard_load_satisfies_request, is_latest_dashboard_request,
}
use frontdashboard.DashboardTypes.{Dashboard, DashboardSummary, DashboardWidget}
use frontdashboard.DashboardEvents.{can_suppress_local_dashboard_echo, get_event_dashboard_id}
use frontdashboard.ChangedFields.{is_echo_suppressible}
use frontdashboard.Sse.{SseEvent, Payload, frame, is_own_frame}
use frontdashboard.Board.{State, DashboardLoad, reset_dashboard_data}
use frontdashboard.Board.Mutations.Stale.{
  widget_added, renamed, answered, now, later, other, answer_came, late_mutation_lem,
}
use frontdashboard.Board.Opening.{Fetch, resume_load, join_load, is_latest}
use frontdashboard.Board.Opening.Refresh.{join_load_refetches, superseded_spinner}
use frontdashboard.Board.Events.{
  handle_dashboard_event, handle_content_event, shows_list, is_removed, suppresses,
}
use frontdashboard.Board.Events.Routing.{own_echo_lem}
use frontdashboard.Board.Events.Content.{handle_content_event_lem}

abbrev row : String → DashboardSummary
row id = record {
  id = id;
  name = "Home";
  user_id = "u";
  version = 3;
  is_favorite = false;
  is_shared = false;
  can_edit = true;
  can_manage_shares = true;
  updated_at = "2026";
}

abbrev shopping : DashboardWidget
shopping = record {
  id = "w1";
  widget_type = "list";
  resource_type = some "list";
  resource_id = some "l1";
  config = "{}";
}

abbrev home : Dashboard
home = record {
  id = "a";
  name = "Home";
  user_id = "u";
  version = 3;
  is_favorite = false;
  is_shared = false;
  can_edit = true;
  can_manage_shares = true;
  layout = record { i = "w1"; x = 0; y = 0; w = 1; h = 1 } ∷ [];
  widgets = shopping ∷ [];
}

abbrev foreground : NormalizedOptions
foreground = record { background = false; surface_access_loss = false }

abbrev refresh : NormalizedOptions
refresh = record { background = true; surface_access_loss = true }

abbrev load_of : String → ℕ → Option NormalizedOptions → DashboardLoad
load_of id serial queued = record {
  id = id;
  options = refresh;
  queued_options = queued;
  latest_request_serial = serial;
}

-- The dashboard "a" is held, and a listing load is in flight. The load 4 of "b" is out, with a
-- foreground request queued, and another dashboard was requested since.
abbrev held : State
held = record {
  generation = 1;
  summaries = row "a" ∷ row "b" ∷ [];
  summaries_loaded = true;
  summaries_loading = true;
  trash = record { id = "c"; name = "Old" } ∷ [];
  trash_loaded = true;
  dashboard = some home;
  loading = false;
  load_error = false;
  conflict = false;
  in_flight_summaries_load = some 2;
  queued_summaries_force_reload = false;
  in_flight_trash_load = none;
  queued_trash_force_reload = false;
  in_flight_dashboard_load = some 4;
  dashboard_loads = λ n. load_of "b" 5 (some foreground);
  latest_dashboard_request = some (record { id = "a"; serial = 6 });
  next_load = 7;
  favorite_dashboard_ids = "b" ∷ [];
  toasts = [];
}

abbrev leq : String → String → Bool
leq a b = true

leq-IsTotal : IsTotal leq
leq-IsTotal a b h = refl

abbrev payload : Payload
payload = record {
  dashboard_id = some "a";
  changed_fields = some ("layout" ∷ []);
  share_action = none;
  widget_id = none;
  config = none;
  list_id = none;
  item_ids = none;
  list_ids = none;
  values = none;
  origin_client_id = some "tab";
}

abbrev moved : String → SseEvent
moved id = record {
  event_id = 1;
  event_type = "dashboard.updated";
  entity_type = "dashboard";
  entity_id = id;
  entity_version = 9;
  actor_id = "u";
  created_at = "2027";
  payload = payload;
}

abbrev list_deleted : SseEvent
list_deleted = record {
  event_id = 2;
  event_type = "list.deleted";
  entity_type = "list";
  entity_id = "l1";
  entity_version = 1;
  actor_id = "u";
  created_at = "2027";
  payload = payload;
}

-- A widget was asked for; then the tab was signed out, another user's board was opened, and a rename
-- of the session before was answered.
abbrev signed_out : State
signed_out = reset_dashboard_data held

abbrev reopened : State
reopened = record signed_out { dashboard = some home }

late_mutation_lem_example :
    answered leq 1
      (widget_added (inl (home, none)))
      (answered leq 1 (renamed "a" (some (row "a"))) reopened).0
    ≡ ((answered leq 1 (renamed "a" (some (row "a"))) reopened).0, [], none)
late_mutation_lem_example =
    late_mutation_lem leq (widget_added (inl (home, none))) held held
      (answered leq 1 (renamed "a" (some (row "a"))) reopened).0 now
      (later (later now (other reopened refl)) (answer_came 1 (renamed "a" (some (row "a")))))

abbrev fetch : Fetch
fetch = record { gen = 1; load = 4; id = "b"; options = refresh }

join_load_refetches_example :
    (next : Fetch) × ((resume_load fetch (inr none) (join_load 4 8 refresh held)).1 ≡ next ∷ [])
    × (next.id ≡ "b")
    × (dashboard_load_satisfies_request next.options refresh ≡ true)
join_load_refetches_example = join_load_refetches fetch 8 refresh (inr none) held refl

superseded : is_latest "b" 4 held ≡ false
unfolding is_latest_dashboard_request
superseded = refl

superseded_spinner_example :
    let again = resume_load fetch (inl home) held in
    let done = resume_load (record fetch { options = foreground }) (inr none) again.0 in
    (again.0.dashboard ≡ some home)
    × (again.0.loading ≡ true)
    × (done.0.dashboard ≡ some home)
    × (done.0.loading ≡ true)
    × (done.1 ≡ [])
superseded_spinner_example =
    superseded_spinner fetch (inl home) (inr none) foreground held refl superseded refl refl

own_move : suppresses "tab" (some "u") (moved "a") ≡ true
unfolding is_own_frame can_suppress_local_dashboard_echo is_echo_suppressible
own_move = refl

own_echo_lem_example :
    let r = handle_dashboard_event leq "tab" (some "u") (frame (moved "a")) held in
    (r.1 ≡ []) × (r.0.dashboard ≡ some home)
own_echo_lem_example = own_echo_lem leq "tab" (some "u") (moved "a") held own_move refl

move_elsewhere : opt_eq (get_event_dashboard_id (moved "b")) "a" ≡ false
unfolding get_event_dashboard_id
move_elsewhere = refl

deletion_here : opt_eq (get_event_dashboard_id list_deleted) "a" ≡ true
unfolding get_event_dashboard_id
deletion_here = refl

handle_content_event_lem_example :
    (after : Dashboard) × ((handle_content_event list_deleted held).dashboard ≡ some after)
    × (any (shows_list "l1") after.widgets ≡ false)
    × (any (is_removed "l1" home.widgets) after.layout ≡ false)
    × (any (λ w. true) after.widgets ≡ any (λ w. not (shows_list "l1" w) && true) home.widgets)
    × (after.version
        ≡ (if any (shows_list "l1") home.widgets then suc home.version else home.version))
handle_content_event_lem_example =
    handle_content_event_lem list_deleted held home (λ w. true) refl refl deletion_here refl
