-- ===== src/Stream.antt =====
-- frontend/src/hooks/useSSE.ts and frontend/src/stores/connection.ts: the one event stream of a tab,
-- its reconnects, and the handlers that each frame is delivered to. The effect's teardown and its next
-- run are one operation, as they follow each other. What a handler does is the business of its module:
-- an operation says which are called, in order. A frame that is malformed is none.
-- `shown` and `loaded` are what is read of the page: whether notifications are shown, and whether the
-- activity feed was loaded.
pub mod Frames
pub mod Backoff
pub mod Recovery
mod Tests
use frontdashboard.Prelude.{
  ℕ, suc, ◌*◌, ◌^◌, ◌%◌, min, String, Bool, true, false, not, ◌&&◌, ◌||◌, ◌==◌, ltb, Option, none,
  some, List, [], ◌∷◌, ◌++◌, map, any, if◌then◌else◌, is_some, or_else, str_eq,
}
use frontdashboard.Prelude.Dict.{get}
use frontdashboard.Sse.{SseEvent, ResourceEvent, resync, frame, is_own_frame}

pub data ConnectionStatus : Type 0 where
  connecting connected reconnecting : ConnectionStatus

abbrev pub is_connection_degraded : ConnectionStatus → Bool
is_connection_degraded connecting = false
is_connection_degraded connected = false
is_connection_degraded reconnecting = true

-- An `EventSource`: the mark that its URL offers, and whether it is closed.
pub record Source : Type 0 where
  pub mark : Option ℕ
  pub closed : Bool

-- The user's id, the refs of the hook, and the status shown. A reconnect that is scheduled holds the
-- number of its attempt.
pub record Stream : Type 0 where
  pub user : Option String
  pub source : Option Source
  pub attempts : ℕ
  pub timer : Option ℕ
  pub needs_resync : Bool
  pub watermark : Option ℕ
  pub status : ConnectionStatus

abbrev pub unmounted : Stream
unmounted = record {
  user = none;
  source = none;
  attempts = 0;
  timer = none;
  needs_resync = false;
  watermark = none;
  status = connecting;
}

pub data EventRoute : Type 0 where
  to_list to_calendar to_dashboard : EventRoute

-- The calls of handlers; a notification is its id.
pub data Call : Type 0 where
  add_activity dashboard_content : SseEvent → Call
  lists agenda calendar : ResourceEvent → Bool → Call
  members dashboard : ResourceEvent → Call
  add_notification : String → Call
  load_unread_count load_notifications load_activity app_resync probe_session : Call

abbrev pub sse_reconnect_base_ms : ℕ
sse_reconnect_base_ms = 1000

abbrev pub sse_reconnect_max_ms : ℕ
sse_reconnect_max_ms = 30000

abbrev pub sse_auth_probe_every : ℕ
sse_auth_probe_every = 4

-- The delay is a random share of this.
unfoldable pub reconnect_ceiling_ms : ℕ → ℕ
reconnect_ceiling_ms attempt = min (sse_reconnect_base_ms * 2 ^ attempt) sse_reconnect_max_ms

-- `EVENT_ROUTES`
abbrev pub event_routes : List (String × EventRoute)
event_routes =
    ("list.created", to_list)
    ∷ ("list.updated", to_list)
    ∷ ("list.deleted", to_list)
    ∷ ("list.reordered", to_list)
    ∷ ("list.item.created", to_list)
    ∷ ("list.item.updated", to_list)
    ∷ ("list.item.checked", to_list)
    ∷ ("list.item.deleted", to_list)
    ∷ ("list.item.reordered", to_list)
    ∷ ("calendar.event.created", to_calendar)
    ∷ ("calendar.event.updated", to_calendar)
    ∷ ("calendar.event.deleted", to_calendar)
    ∷ ("calendar.event.occurrence.updated", to_calendar)
    ∷ ("calendar.event.occurrence.cancelled", to_calendar)
    ∷ ("dashboard.created", to_dashboard)
    ∷ ("dashboard.updated", to_dashboard)
    ∷ ("dashboard.deleted", to_dashboard)
    ∷ ("dashboard.share_added", to_dashboard)
    ∷ ("dashboard.share_updated", to_dashboard)
    ∷ ("dashboard.share_removed", to_dashboard)
    ∷ []

-- `RESYNC_TARGETS`, where each entity type has one target. A name that every object inherits, as
-- `toString`, is looked up as one of its own in the code, and is unknown here; no entity type has it.
abbrev pub resync_targets : List (String × EventRoute)
resync_targets =
    ("list", to_list)
    ∷ ("list_item", to_list)
    ∷ ("calendar_event", to_calendar)
    ∷ ("dashboard", to_dashboard)
    ∷ []

abbrev pub same_route : EventRoute → EventRoute → Bool
same_route to_list to_list = true
same_route to_calendar to_calendar = true
same_route to_dashboard to_dashboard = true
same_route _ _ = false

-- The loop of `resyncRoutes`; the order of a set of routes is of no account.
unfoldable pub routes_of : List String → Option (List EventRoute)
routes_of [] = some []
routes_of (scope ∷ scopes) =
    let rest = routes_of scopes in
    elim (get scope resync_targets) [
      | none ↦ none
      | some target ↦ elim rest [ none ↦ none | some routes ↦ some (target ∷ routes) ]
    ]

unfoldable pub resync_routes : Option (List String) → Option (List EventRoute)
unfolding routes_of
resync_routes none = none
resync_routes (some scopes) = routes_of scopes

abbrev pub wants : Option (List EventRoute) → EventRoute → Bool
wants none route = true
wants (some routes) route = any (same_route route) routes

-- The effect: the stream of before is closed, with its timer, and one is opened for a user. Only a
-- reconnect with a known mark offers it, and so lets the server decide.
unfoldable pub open_stream : Option String → Stream → Stream
open_stream none s = record s { user = none; source = none; timer = none; status = connecting }
open_stream (some user) s = record s {
  user = some user;
  source = some (record { mark = if s.needs_resync then s.watermark else none; closed = false });
  timer = none;
}

-- `es.onerror`, with whether the source is closed.
unfoldable pub on_error : Bool → Stream → Stream
on_error closed s = elim s.source [
  | none ↦ s
  | some source ↦
      let degraded = record s {
        source = some (record source { closed = closed });
        status = reconnecting;
      } in
      if not closed || is_some s.timer
      then degraded
      else record degraded { attempts = suc s.attempts; timer = some s.attempts }
]

-- The timer runs out: now and then the session is probed, and the stream is opened again.
unfoldable pub on_timer : Stream → Stream × List Call
unfolding open_stream
on_timer s = elim s.timer [
  | none ↦ (s, [])
  | some attempt ↦ (
    open_stream s.user (record s { timer = none; needs_resync = true }),
    if ltb 0 attempt && attempt % sse_auth_probe_every == 0 then probe_session ∷ [] else [],
  )
]

abbrev pub is_closed : Option Source → Bool
is_closed none = false
is_closed (some source) = source.closed

-- `handleVisibilityChange`, once the page is visible.
unfoldable pub on_visible : Stream → Stream
unfolding open_stream
on_visible s = elim s.source [
  | none ↦ s
  | some source ↦
      if not source.closed || is_some s.timer
      then s
      else open_stream s.user (record s { needs_resync = true })
]

-- The mark moves up.
abbrev pub raised : ℕ → Option ℕ → Option ℕ
raised id mark = if ltb (or_else mark 0) id then some id else mark

abbrev pub raised_to : Option ℕ → Option ℕ → Option ℕ
raised_to none mark = mark
raised_to (some head) mark = raised head mark

abbrev pub when : Bool → List Call → List Call
when test calls = if test then calls else []

-- The calls of `onResync` on the routes that it concerns.
unfoldable pub resync_calls : Bool → Bool → Option (List EventRoute) → List Call
resync_calls shown loaded routes =
    when (wants routes to_list) (lists resync false ∷ [])
    ++ when (wants routes to_calendar) (calendar resync false ∷ [])
    ++ when (wants routes to_list || wants routes to_calendar) (agenda resync false ∷ [])
    ++ when (wants routes to_dashboard) (members resync ∷ dashboard resync ∷ [])
    ++ load_unread_count ∷ when shown (load_notifications ∷ [])
    ++ when loaded (load_activity ∷ [])
    ++ app_resync ∷ []

-- A `resync` frame: the log's head, and the entity types that changed.
pub record ResyncFrame : Type 0 where
  pub last_event_id : Option ℕ
  pub scopes : Option (List String)

unfoldable pub on_resync : Bool → Bool → Option ResyncFrame → Stream → Stream × List Call
unfolding resync_calls resync_routes
on_resync shown loaded none s = (s, resync_calls shown loaded none)
on_resync shown loaded (some f) s = (
  record s { watermark = raised_to f.last_event_id s.watermark },
  resync_calls shown loaded (resync_routes f.scopes),
)

abbrev pub offers : Option Source → Bool
offers none = false
offers (some source) = is_some source.mark

abbrev pub set_mark : Option ℕ → Option ℕ → Option ℕ
set_mark none mark = mark
set_mark (some head) mark = some head

-- A `connected` frame, with the head of the log where it has one.
unfoldable pub on_connected : Bool → Bool → Option ℕ → Stream → Stream × List Call
unfolding resync_calls
on_connected shown loaded head s =
    let up = record s {
      attempts = 0;
      status = connected;
      watermark = set_mark head s.watermark;
      needs_resync = false;
    } in
    (up, if s.needs_resync && not (offers s.source) then resync_calls shown loaded none else [])

-- `client` is the tab's id.
abbrev pub calls_of : String → Option String → EventRoute → SseEvent → List Call
calls_of client user to_list e =
    let own_echo = is_own_frame client e user in
    add_activity e ∷ lists (frame e) own_echo ∷ agenda (frame e) own_echo ∷ dashboard_content e ∷ []
calls_of client user to_calendar e =
    let own_echo = is_own_frame client e user in
    add_activity e ∷ calendar (frame e) own_echo ∷ agenda (frame e) own_echo ∷ []
calls_of client user to_dashboard e = add_activity e ∷ members (frame e) ∷ dashboard (frame e) ∷ []

-- An activity frame, under the name of its event.
unfoldable pub on_activity_frame : String → String → Option SseEvent → Stream → Stream × List Call
unfolding is_own_frame
on_activity_frame client name none s = (s, [])
on_activity_frame client name (some e) s = elim (get name event_routes) [
  | none ↦ (s, [])
  | some route ↦
      (record s { watermark = raised e.event_id s.watermark }, calls_of client s.user route e)
]

unfoldable pub on_notification : Option String → List Call
on_notification none = load_unread_count ∷ []
on_notification (some id) = add_notification id ∷ []
