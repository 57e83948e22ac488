-- ===== src/Calendar/Tests.antt =====
-- Runs of the calendar's cache, and its theorems at concrete inputs.
use frontdashboard.Prelude.{◌≡◌, refl, false, none, some, inl}
use frontdashboard.Sse.{SseEvent, Payload, frame}
use frontdashboard.Calendar.{
  CalendarEvent, Events, held, shared, sent, no_events, get_calendar_event, create_calendar_event,
  update_calendar_event, restore_calendar_event, delete_calendar_event,
  handle_calendar_resource_event, reset_calendar_data,
}
use frontdashboard.Calendar.Reads.{reads_after_writes_lem}
use frontdashboard.Calendar.Outdated.{KeepsLate, late_response_lem}

abbrev standup : CalendarEvent
standup = record { id = "e"; dashboard_id = some "home"; title = "Standup" }

abbrev payload : Payload
payload = record {
  dashboard_id = some "home";
  changed_fields = none;
  share_action = none;
  widget_id = none;
  config = none;
  list_id = none;
  item_ids = none;
  list_ids = none;
  values = none;
  origin_client_id = none;
}

abbrev moved : SseEvent
moved = record {
  event_id = 1;
  event_type = "calendar.event.updated";
  entity_type = "calendar_event";
  entity_id = "e";
  entity_version = 2;
  actor_id = "u";
  created_at = "a";
  payload = payload;
}

one_request : (get_calendar_event "e" (get_calendar_event "e" no_events).0).1 ≡ shared 0
unfolding get_calendar_event
one_request = refl

reads_after_writes_lem_example :
    ((get_calendar_event "e" (create_calendar_event none (inl standup) no_events).0.0).1
      ≡ held standup)
    × ((get_calendar_event "e" (update_calendar_event "e" (inl standup) no_events).0.0).1
        ≡ held standup)
    × ((get_calendar_event "e" (restore_calendar_event "e" none (inl standup) no_events).0.0).1
        ≡ held standup)
    × ((get_calendar_event "e" (delete_calendar_event "e" none none no_events).0.0).1 ≡ sent 0)
    × ((get_calendar_event "e" (handle_calendar_resource_event (frame moved) false no_events).0).1
        ≡ sent 0)
reads_after_writes_lem_example = reads_after_writes_lem standup none moved no_events refl refl

abbrev asked : Events
asked = (get_calendar_event "e" no_events).0

late_response_lem_example :
    ((get_calendar_event "e" no_events).1 ≡ sent 0)
    × KeepsLate "e" standup 1 (handle_calendar_resource_event (frame moved) false asked).0
    × KeepsLate "e" standup 1 (delete_calendar_event "e" none none asked).0.0
    × KeepsLate "e" standup 1 (reset_calendar_data asked)
late_response_lem_example = late_response_lem moved none standup no_events refl refl refl refl
