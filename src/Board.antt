-- ===== src/Board.antt =====
-- frontend/src/stores/dashboard.ts: the listing, the trash and the held dashboard, with the
-- module's variables of their loads. Saving layouts is in Layout. A load that is in flight is known
-- by a number, which stands for the identity of its object.
pub mod Listing
pub mod Mutations
pub mod Opening
pub mod Events
mod Tests
use frontdashboard.Prelude.{
  ℕ, suc, String, Bool, false, Option, none, List, [], ◌==◌, if◌then◌else◌,
}
use frontdashboard.LoadOptions.{NormalizedOptions, LatestRequest, reset_dashboard_requests}
use frontdashboard.DashboardTypes.{Dashboard, DashboardSummary, TrashedDashboard}

-- `InFlightDashboardLoad`
pub record DashboardLoad : Type 0 where
  pub id : String
  pub options : NormalizedOptions
  pub queued_options : Option NormalizedOptions
  pub latest_request_serial : ℕ

-- The load objects are a function of their numbers: a running loop still reads its own after
-- another load has replaced it as the one in flight.
pub record State : Type 0 where
  pub generation : ℕ
  pub summaries : List DashboardSummary
  pub summaries_loaded : Bool
  pub summaries_loading : Bool
  pub trash : List TrashedDashboard
  pub trash_loaded : Bool
  pub dashboard : Option Dashboard
  pub loading : Bool
  pub load_error : Bool
  pub conflict : Bool
  pub in_flight_summaries_load : Option ℕ
  pub queued_summaries_force_reload : Bool
  pub in_flight_trash_load : Option ℕ
  pub queued_trash_force_reload : Bool
  pub in_flight_dashboard_load : Option ℕ
  pub dashboard_loads : ℕ → DashboardLoad
  pub latest_dashboard_request : Option LatestRequest
  pub next_load : ℕ
  pub favorite_dashboard_ids : List String
  pub toasts : List String

-- `guard.set`
abbrev pub guarded : ℕ → (State → State) → State → State
guarded gen update s = if gen == s.generation then update s else s

-- On this part of the store. The debounced refreshes that are cancelled are not part of it.
unfoldable pub reset_dashboard_data : State → State
reset_dashboard_data s = record s {
  generation = suc s.generation;
  in_flight_dashboard_load = none;
  in_flight_summaries_load = none;
  in_flight_trash_load = none;
  queued_trash_force_reload = false;
  queued_summaries_force_reload = false;
  latest_dashboard_request = reset_dashboard_requests;
  summaries = [];
  summaries_loaded = false;
  summaries_loading = false;
  trash = [];
  trash_loaded = false;
  dashboard = none;
  loading = false;
  load_error = false;
  conflict = false;
}
