-- ===== src/Activity.antt =====
-- frontend/src/stores/notifications.ts, the activity feed, with `ACTIVITY_CATEGORIES` and the filters
-- of frontend/src/utils/notifications/notificationFeedUtils.ts. An action that awaits is split into a
-- `begin_` step, which gives the request with what it captured, and the step of the response.
mod Interleaving
mod Responses
mod Actions
mod Filtered
mod Tests
use frontdashboard.Prelude.{
  ℕ, suc, String, Bool, true, false, not, ◌&&◌, ◌||◌, ◌==◌, Option, none, some, List, [], ◌∷◌, ◌++◌,
  str_eq, opt_eq, if◌then◌else◌, filter, any, includes, length, or_else,
}

pub record ActivityEvent : Type 0 where
  pub event_id : ℕ
  pub event_type : String
  pub actor_id : String

abbrev pub activity_filter_all : String
activity_filter_all = "all"

abbrev pub activity_page_size : ℕ
activity_page_size = 50

-- `eventTypesForActivityFilter` over `ACTIVITY_FILTERS`: no types stands for everything.
unfoldable pub event_types_for_activity_filter : String → List String
event_types_for_activity_filter filter_id =
    if str_eq filter_id "dashboards"
    then "dashboard.created" ∷ "dashboard.updated" ∷ "dashboard.deleted" ∷ []
    else if str_eq filter_id "sharing"
    then "dashboard.share_added" ∷ "dashboard.share_updated" ∷ "dashboard.share_removed" ∷ []
    else if str_eq filter_id "lists"
    then "list.created" ∷ "list.updated" ∷ "list.deleted" ∷ "list.reordered" ∷ []
    else if str_eq filter_id "list-items"
    then "list.item.created" ∷ "list.item.updated" ∷ "list.item.checked" ∷ "list.item.deleted"
      ∷ "list.item.reordered" ∷ []
    else if str_eq filter_id "calendar"
    then "calendar.event.created" ∷ "calendar.event.updated" ∷ "calendar.event.deleted"
      ∷ "calendar.event.occurrence.updated" ∷ "calendar.event.occurrence.cancelled" ∷ []
    else []

-- The event is of a type that the filter shows.
abbrev pub is_shown_by : List String → ActivityEvent → Bool
is_shown_by [] event = true
is_shown_by (t ∷ ts) event = includes (t ∷ ts) event.event_type

unfoldable pub is_own_feed_activity : ActivityEvent → Option String → String → Bool
unfolding event_types_for_activity_filter
is_own_feed_activity event viewer_id filter_id =
    opt_eq viewer_id event.actor_id && is_shown_by (event_types_for_activity_filter filter_id) event

pub record State : Type 0 where
  pub generation : ℕ
  pub activity_promise : Bool
  pub activity_load_more_promise : Bool
  pub activity_request_token : ℕ
  pub activity : List ActivityEvent
  pub activity_loaded : Bool
  pub activity_loading : Bool
  pub activity_failed : Bool
  pub activity_has_more : Bool
  pub activity_loading_more : Bool
  pub activity_filter : String

-- A request in flight, with what its continuation has captured: the generation, the token of a
-- first page, and the filter that it was sent with.
pub data Request : Type 0 where
  first_page : ℕ → ℕ → String → Request
  older_page : ℕ → String → ℕ → Request

abbrev pub guarded : ℕ → (State → State) → State → State
guarded gen update s = if gen == s.generation then update s else s

abbrev pub start_load : State → State × List Request
start_load s = (
  record s {
    activity_request_token = suc s.activity_request_token;
    activity_promise = true;
    activity_loading = true;
  },
  first_page s.generation (suc s.activity_request_token) s.activity_filter ∷ [],
)

unfoldable pub load_activity : Bool → State → State × List Request
load_activity force s =
    if not force && s.activity_loaded || s.activity_promise then (s, []) else start_load s

-- The response of a first page, or its failure; only the newest request writes.
unfoldable pub complete_load_activity : ℕ → ℕ → Option (List ActivityEvent) → State → State
complete_load_activity gen token (some rows) s =
    if not (token == s.activity_request_token)
    then s
    else let shown =
        guarded gen
          (λ t. record t {
            activity = rows;
            activity_loaded = true;
            activity_failed = false;
            activity_has_more = length rows == activity_page_size;
            activity_loading = false;
          })
          s in
      record shown { activity_promise = false }
complete_load_activity gen token none s =
    if not (token == s.activity_request_token)
    then s
    else let shown =
        guarded gen
          (λ t. record t { activity_failed = not s.activity_loaded; activity_loading = false }) s in
      record shown { activity_promise = false }

-- The last row of the feed.
abbrev pub oldest : List ActivityEvent → Option ActivityEvent
oldest [] = none
oldest (e ∷ es) = some (or_else (oldest es) e)

unfoldable pub load_more_activity : State → State × List Request
load_more_activity s =
    if s.activity_load_more_promise || s.activity_loading_more
    then (s, [])
    else elim (oldest s.activity) [
      | none ↦ (s, [])
      | some last ↦ (
        record s { activity_load_more_promise = true; activity_loading_more = true },
        older_page s.generation s.activity_filter last.event_id ∷ [],
      )
    ]

abbrev pub has_event : List ActivityEvent → ℕ → Bool
has_event events id = any (λ e. e.event_id == id) events

abbrev pub append_older : List ActivityEvent → State → State
append_older older t = record t {
  activity = t.activity ++ filter (λ e. not (has_event t.activity e.event_id)) older;
  activity_has_more = length older == activity_page_size;
}

-- A page that was asked for under another filter is not shown.
abbrev pub show_older : ℕ → String → Option (List ActivityEvent) → State → State
show_older gen filter_id none s = s
show_older gen filter_id (some older) s =
    if str_eq s.activity_filter filter_id then guarded gen (append_older older) s else s

unfoldable pub complete_load_more_activity :
    ℕ → String → Option (List ActivityEvent) → State → State
complete_load_more_activity gen filter_id response s =
    let shown = show_older gen filter_id response s in
    let settled = guarded gen (λ t. record t { activity_loading_more = false }) shown in
    record settled { activity_load_more_promise = false }

unfoldable pub set_activity_filter : String → State → State × List Request
unfolding load_activity
set_activity_filter filter_id s =
    if str_eq s.activity_filter filter_id
    then (s, [])
    else load_activity false (record s {
      activity_promise = false;
      activity_filter = filter_id;
      activity = [];
      activity_loaded = false;
      activity_has_more = false;
    })

unfoldable pub add_activity_from_sse : ActivityEvent → Option String → State → State
unfolding is_own_feed_activity
add_activity_from_sse event viewer_id s =
    if not s.activity_loaded || not (is_own_feed_activity event viewer_id s.activity_filter)
    then s
    else if has_event s.activity event.event_id
    then s
    else record s { activity = event ∷ s.activity }

unfoldable pub reset : State → State
reset s = record s {
  generation = suc s.generation;
  activity_promise = false;
  activity_load_more_promise = false;
  activity_request_token = suc s.activity_request_token;
  activity = [];
  activity_loaded = false;
  activity_loading = false;
  activity_failed = false;
  activity_has_more = false;
  activity_loading_more = false;
  activity_filter = activity_filter_all;
}
