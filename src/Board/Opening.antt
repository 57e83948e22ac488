-- ===== src/Board/Opening.antt =====
-- frontend/src/stores/dashboard.ts, `loadDashboard`: opening and refreshing the held dashboard.
pub mod Refresh
use frontdashboard.Prelude.{
  ℕ, suc, String, Bool, true, false, not, ◌&&◌, ◌||◌, ◌==◌, Option, none, some, List, [], ◌∷◌,
  if◌then◌else◌, str_eq, opt_eq, ◌⊎◌, inl, inr,
}
use frontdashboard.LoadOptions.{
  LoadDashboardOptions, NormalizedOptions, normalize_dashboard_load_options,
  merge_dashboard_load_options, dashboard_load_satisfies_request, begin_dashboard_request,
  is_latest_dashboard_request,
}
use frontdashboard.DashboardTypes.{Dashboard}
use frontdashboard.Board.{State, DashboardLoad, guarded}

-- A request for the dashboard that waits, with what the loop's turn holds: the generation, the
-- load, the id, and `currentOptions`.
pub record Fetch : Type 0 where
  pub gen : ℕ
  pub load : ℕ
  pub id : String
  pub options : NormalizedOptions

abbrev pub set_load : ℕ → DashboardLoad → (ℕ → DashboardLoad) → ℕ → DashboardLoad
set_load load object loads n = if n == load then object else loads n

-- The id of the load in flight.
abbrev pub in_flight_id : State → Option String
in_flight_id s = elim s.in_flight_dashboard_load [
  | none ↦ none
  | some load ↦ some (s.dashboard_loads load).id
]

abbrev pub held_id : State → Option String
held_id s = elim s.dashboard [ none ↦ none | some held ↦ some held.id ]

-- The held dashboard needs no request: the stream keeps it current.
abbrev pub is_held_current : Bool → String → NormalizedOptions → State → Bool
is_held_current connected id requested s =
    not requested.background
    && not (opt_eq (in_flight_id s) id)
    && opt_eq (held_id s) id
    && not s.load_error
    && not s.conflict
    && connected

-- A turn of the loop up to its request.
unfoldable pub start_turn : ℕ → ℕ → String → NormalizedOptions → State → State × List Fetch
start_turn gen load id options s =
    let object = record (s.dashboard_loads load) { options = options; queued_options = none } in
    let begun = record s { dashboard_loads = set_load load object s.dashboard_loads } in
    (
      if options.background
          then begun
          else guarded gen (λ t. record t { loading = true; load_error = false }) begun,
      record { gen = gen; load = load; id = id; options = options } ∷ [],
    )

-- The load in flight is told of the request, and queues it where it would not satisfy it.
unfoldable pub join_load : ℕ → ℕ → NormalizedOptions → State → State
join_load load serial requested s =
    let object = s.dashboard_loads load in
    record s {
      dashboard_loads =
          set_load load
            (record object {
              latest_request_serial = serial;
              queued_options =
                  if requested.background
                    || not (dashboard_load_satisfies_request object.options requested)
                  then some (merge_dashboard_load_options object.queued_options requested)
                  else object.queued_options;
            })
            s.dashboard_loads;
    }

unfoldable pub open_load : String → ℕ → NormalizedOptions → State → State × List Fetch
unfolding start_turn
open_load id serial requested s =
    let object : DashboardLoad = record {
      id = id;
      options = requested;
      queued_options = none;
      latest_request_serial = serial;
    } in
    start_turn s.generation s.next_load id requested (record s {
      dashboard_loads = set_load s.next_load object s.dashboard_loads;
      in_flight_dashboard_load = some s.next_load;
      next_load = suc s.next_load;
    })

-- Past the early return: the load in flight is joined if it is of the same dashboard.
unfoldable pub request_dashboard : String → ℕ → NormalizedOptions → State → State × List Fetch
unfolding join_load open_load
request_dashboard id serial requested s = elim s.in_flight_dashboard_load [
  | none ↦ open_load id serial requested s
  | some load ↦
      if str_eq (s.dashboard_loads load).id id
      then (join_load load serial requested s, [])
      else open_load id serial requested s
]

-- `connected` is whether the stream's status is `connected`.
unfoldable pub load_dashboard : Bool → String → LoadDashboardOptions → State → State × List Fetch
unfolding request_dashboard normalize_dashboard_load_options begin_dashboard_request
load_dashboard connected id options s =
    let requested = normalize_dashboard_load_options options in
    let begun = begin_dashboard_request id s.latest_dashboard_request in
    let claimed = record s { latest_dashboard_request = some begun.0 } in
    if is_held_current connected id requested s
    then (record claimed { loading = false }, [])
    else request_dashboard id begun.1 requested claimed

abbrev pub is_latest : String → ℕ → State → Bool
is_latest id load s =
    is_latest_dashboard_request s.latest_dashboard_request id
      (s.dashboard_loads load).latest_request_serial

-- `status === 403 || status === 404`, for the status of an error of the API.
abbrev pub is_access_loss : Option ℕ → Bool
is_access_loss none = false
is_access_loss (some status) = status == 403 || status == 404

abbrev pub show_dashboard : NormalizedOptions → Dashboard → State → State
show_dashboard options dashboard t = record t {
  dashboard = some dashboard;
  conflict = false;
  load_error = false;
  loading = if options.background then t.loading else false;
}

abbrev pub show_error : Bool → State → State
show_error closes t = record t {
  dashboard = if closes then none else t.dashboard;
  load_error = true;
  loading = false;
  conflict = false;
}

-- What a response shows, with the `finally` block of the turn; only the latest request shows it.
unfoldable pub settle_turn : Fetch → Dashboard ⊎ Option ℕ → State → State
settle_turn f (inl dashboard) s =
    if is_latest f.id f.load s then guarded f.gen (show_dashboard f.options dashboard) s else s
settle_turn f (inr status) s =
    let closes = f.options.background && f.options.surface_access_loss && is_access_loss status in
    if is_latest f.id f.load s && (not f.options.background || closes)
    then guarded f.gen (show_error closes) s
    else s

-- The end of the loop, if the load is still the one in flight.
abbrev pub end_load : ℕ → State → State
end_load load s = elim s.in_flight_dashboard_load [
  | none ↦ s
  | some other ↦ if other == load then record s { in_flight_dashboard_load = none } else s
]

-- A response, and the next turn of the loop where one is queued.
unfoldable pub resume_load : Fetch → Dashboard ⊎ Option ℕ → State → State × List Fetch
unfolding settle_turn start_turn
resume_load f response s =
    let settled = settle_turn f response s in
    elim (settled.dashboard_loads f.load).queued_options [
      | none ↦ (end_load f.load settled, [])
      | some options ↦ start_turn f.gen f.load f.id options settled
    ]
