-- ===== src/Calendar/Reads.antt =====
-- What a read of an event gives after a write of this tab, or a frame of another.
use frontdashboard.Prelude.{
  ◌≡◌, refl, ap, String, true, false, Option, none, some, List, [], ◌∷◌, str_eq, str_eq_refl,
  starts_with, arith, inl,
}
use frontdashboard.Prelude.Dict.{get, set, delete, get-set}
use frontdashboard.Sse.{SseEvent, frame}
use frontdashboard.Calendar.{
  CalendarEvent, Events, held, sent, create_calendar_event, get_calendar_event,
  update_calendar_event, delete_calendar_event, restore_calendar_event,
  handle_calendar_resource_event,
}

pub get-delete : {V : Type 0} (k : String) (m : List (String × V)) → get k (delete k m) ≡ none
get-delete k [] = refl
get-delete k ((j, v) ∷ m) = ground (arith, get-delete k m)

pub get-stored :
    (event : CalendarEvent) (id : String) (s : Events)
    → get id (set id event s.details) ≡ some event
get-stored event id s = ground (arith, get-set id id event s.details, str_eq_refl id)

-- A read of an event that is held gives it and sends nothing.
pub read-held :
    (id : String) (event : CalendarEvent) (s : Events)
    → get id s.details ≡ some event
    → get_calendar_event id s ≡ (s, held event)
unfolding get_calendar_event
read-held id event s h = rw (get_calendar_event, h) refl

pub read-missing :
    (id : String) (s : Events)
    → get id s.details ≡ none
    → get id s.requests ≡ none
    → (get_calendar_event id s).1 ≡ sent s.next
unfolding get_calendar_event
read-missing id s h r = rw (get_calendar_event, h, r) refl

-- Once a create, an update or a restore has succeeded, a read gives the event of the response and
-- sends nothing. Once a deletion has succeeded, or a frame of another tab about the event has come,
-- a read sends a request of its own.
pub reads_after_writes_lem :
    (event : CalendarEvent) (dashboard_id : Option String) (e : SseEvent) (s : Events)
    → str_eq e.entity_id "" ≡ false
    → starts_with e.event_type "calendar." ≡ true
    → let id = e.entity_id in
      ((get_calendar_event event.id (create_calendar_event dashboard_id (inl event) s).0.0).1
        ≡ held event)
      × ((get_calendar_event id (update_calendar_event id (inl event) s).0.0).1 ≡ held event)
      × ((get_calendar_event id (restore_calendar_event id dashboard_id (inl event) s).0.0).1
          ≡ held event)
      × ((get_calendar_event id (delete_calendar_event id dashboard_id none s).0.0).1 ≡ sent s.next)
      × ((get_calendar_event id (handle_calendar_resource_event (frame e) false s).0).1
          ≡ sent s.next)
unfolding create_calendar_event update_calendar_event restore_calendar_event delete_calendar_event
    handle_calendar_resource_event
reads_after_writes_lem event dashboard_id e s n t =
    let missing =
      read-missing e.entity_id
        (record s {
          details = delete e.entity_id s.details;
          requests = delete e.entity_id s.requests;
        })
        (get-delete e.entity_id s.details) (get-delete e.entity_id s.requests) in
    (
      ap (λ r. r.1) (read-held event.id event _ (get-stored event event.id s)),
      ap (λ r. r.1) (read-held e.entity_id event _ (get-stored event e.entity_id s)),
      ap (λ r. r.1) (read-held e.entity_id event _ (get-stored event e.entity_id s)),
      rw n (
          read-missing e.entity_id _ (get-delete e.entity_id s.details)
            (get-delete e.entity_id s.requests)),
      rw (t, n) missing,
    )
