-- ===== src/Calendar.antt =====
-- frontend/src/resources/calendarData.ts: the details of calendar events, and what the writes of this
-- tab and the frames of the server change. A fetch of an event is split at its `await`. The occurrences
-- are the store's: an operation says which of them it invalidates.
pub mod Reads
pub mod Outdated
mod Tests
use frontdashboard.Prelude.{
  ℕ, suc, String, Bool, true, false, not, ◌||◌, Option, none, some, List, [], ◌∷◌, ◌++◌,
  if◌then◌else◌, or_else, str_eq, starts_with, ◌⊎◌, inl, inr,
}
use frontdashboard.Prelude.Dict.{get, set, delete}
use frontdashboard.Sse.{SseEvent, ResourceEvent, resync, frame}

-- `CalendarEventResponse`, of which the code reads the ids.
pub record CalendarEvent : Type 0 where
  pub id : String
  pub dashboard_id : Option String
  pub title : String

-- The messages; the success of a deletion offers to undo it.
pub data Toast : Type 0 where
  success failure : String → Toast
  undoable : String → String → Option String → Toast

-- `calendarEventDetails` and `calendarEventRequests`, where a request is its number; the number of
-- the next; and the messages, the newest first.
pub record Events : Type 0 where
  pub details : List (String × CalendarEvent)
  pub requests : List (String × ℕ)
  pub next : ℕ
  pub toasts : List Toast

-- What is invalidated of the occurrences.
pub data Invalidated : Type 0 where
  nothing everything : Invalidated
  of_dashboard : Option String → Invalidated

abbrev pub no_events : Events
no_events = record { details = []; requests = []; next = 0; toasts = [] }

abbrev pub toast : Toast → Events → Events
toast message s = record s { toasts = message ∷ s.toasts }

abbrev pub cached : CalendarEvent → String → Events → Events
cached event id s = record s { details = set id event s.details }

-- `invalidateCalendarEvent`, on an id that is there and is not empty.
abbrev pub invalidate_calendar_event : String → Events → Events
invalidate_calendar_event event_id s =
    if str_eq event_id ""
    then s
    else record s { details = delete event_id s.details; requests = delete event_id s.requests }

abbrev pub first_given : Option String → Option String → Option String
first_given none b = b
first_given (some a) b = some a

-- `input_dashboard` is `input.dashboard_id`. The caller's outcome is the event, unless the error is
-- thrown on.
unfoldable pub create_calendar_event :
    Option String
    → CalendarEvent ⊎ Option String
    → Events
    → (Events × Invalidated) × Option CalendarEvent
create_calendar_event input_dashboard (inl event) s = (
  (
    toast (success "Event created.") (cached event event.id s),
    of_dashboard (first_given event.dashboard_id input_dashboard),
  ),
  some event,
)
create_calendar_event input_dashboard (inr error) s =
    ((toast (failure (or_else error "Failed to create event.")) s, nothing), none)

-- What a read gives at once: the event, or the request that it waits for.
pub data Read : Type 0 where
  held : CalendarEvent → Read
  shared sent : ℕ → Read

unfoldable pub get_calendar_event : String → Events → Events × Read
get_calendar_event event_id s = elim (get event_id s.details) [
  | some event ↦ (s, held event)
  | none ↦ elim (get event_id s.requests) [
    | some request ↦ (s, shared request)
    | none ↦
        (record s { requests = set event_id s.next s.requests; next = suc s.next }, sent s.next)
  ]
]

-- The response to a request of `getCalendarEvent`, with the message of the caller that sent it.
unfoldable pub complete_get_calendar_event :
    String → CalendarEvent ⊎ Option String → Events → Events
complete_get_calendar_event event_id (inl event) s =
    let stored = cached event event_id s in
    record stored { requests = delete event_id stored.requests }
complete_get_calendar_event event_id (inr error) s =
    toast (failure (or_else error "Failed to load event."))
      (record s { requests = delete event_id s.requests })

unfoldable pub update_calendar_event :
    String → CalendarEvent ⊎ Option String → Events → (Events × Invalidated) × Option CalendarEvent
update_calendar_event event_id (inl event) s = (
  (toast (success "Event updated.") (cached event event_id s), of_dashboard event.dashboard_id),
  some event,
)
update_calendar_event event_id (inr error) s =
    ((toast (failure (or_else error "Failed to update event.")) s, nothing), none)

-- The error is none where the event was deleted; the outcome is whether it was.
unfoldable pub delete_calendar_event :
    String → Option String → Option (Option String) → Events → (Events × Invalidated) × Bool
delete_calendar_event event_id dashboard_id none s = (
  (
    toast (undoable "Event deleted." event_id dashboard_id) (invalidate_calendar_event event_id s),
    of_dashboard dashboard_id,
  ),
  true,
)
delete_calendar_event event_id dashboard_id (some error) s =
    ((toast (failure (or_else error "Failed to delete event.")) s, nothing), false)

unfoldable pub restore_calendar_event :
    String → Option String → CalendarEvent ⊎ Option String → Events → (Events × Invalidated) × Bool
restore_calendar_event event_id dashboard_id (inl event) s =
    ((toast (success "Event restored.") (cached event event_id s), of_dashboard dashboard_id), true)
restore_calendar_event event_id dashboard_id (inr error) s =
    ((toast (failure (or_else error "Failed to restore event.")) s, nothing), false)

unfoldable pub purge_calendar_event : String → Option (Option String) → Events → Events × Bool
purge_calendar_event event_id none s = (record s { details = delete event_id s.details }, true)
purge_calendar_event event_id (some error) s =
    (toast (failure (or_else error "Failed to permanently delete event.")) s, false)

abbrev pub cleared : Events → Events
cleared s = record s { details = []; requests = [] }

unfoldable pub handle_calendar_resource_event : ResourceEvent → Bool → Events → Events × Invalidated
handle_calendar_resource_event resync own_echo s = (cleared s, everything)
handle_calendar_resource_event (frame e) own_echo s =
    if not (starts_with e.event_type "calendar.") || own_echo
    then (s, nothing)
    else (invalidate_calendar_event e.entity_id s, of_dashboard e.payload.dashboard_id)

-- `resetCalendarData`, beside the reset of the occurrences.
unfoldable pub reset_calendar_data : Events → Events
reset_calendar_data s = cleared s
