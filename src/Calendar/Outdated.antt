-- ===== src/Calendar/Outdated.antt =====
-- A response that comes after what it brings was invalidated.
use frontdashboard.Prelude.{
  ℕ, suc, ◌≡◌, refl, ap, ◌∙◌, subst, String, true, false, Option, none, some, inl, str_eq,
  str_eq_refl, starts_with, arith,
}
use frontdashboard.Prelude.Dict.{get, get-set, delete}
use frontdashboard.Sse.{SseEvent, frame}
use frontdashboard.Calendar.{
  CalendarEvent, Events, held, sent, undoable, toast, get_calendar_event,
  complete_get_calendar_event, delete_calendar_event, handle_calendar_resource_event,
  reset_calendar_data,
}
use frontdashboard.Calendar.Reads.{get-delete, get-stored, read-held, read-missing}

-- After this, a read of the event sends the request of that number; the response to an earlier one is
-- kept all the same, so that the next read gives it, and the newer request is forgotten.
abbrev pub KeepsLate : String → CalendarEvent → ℕ → Events → Type 0
KeepsLate id old number s =
    let again = get_calendar_event id s in
    let late = complete_get_calendar_event id (inl old) again.0 in
    (again.1 ≡ sent number)
    × (get id again.0.requests ≡ some number)
    × ((get_calendar_event id late).1 ≡ held old)
    × (get id late.requests ≡ none)

complete-held :
    (id : String) (event : CalendarEvent) (s : Events)
    → (get_calendar_event id (complete_get_calendar_event id (inl event) s)).1 ≡ held event
unfolding complete_get_calendar_event
complete-held id event s = ap (λ r. r.1) (read-held id event _ (get-stored event id s))

read-asked :
    (id : String) (s : Events)
    → get id s.details ≡ none
    → get id s.requests ≡ none
    → get id (get_calendar_event id s).0.requests ≡ some s.next
unfolding get_calendar_event
read-asked id s h r =
    rw (get_calendar_event, h, r) (ground (arith, get-set id id s.next s.requests, str_eq_refl id))

complete-forgets :
    (id : String) (old : CalendarEvent) (s : Events)
    → get id (complete_get_calendar_event id (inl old) s).requests ≡ none
unfolding complete_get_calendar_event
complete-forgets id old s = get-delete id s.requests

missing-KeepsLate :
    (id : String) (old : CalendarEvent) (s : Events)
    → get id s.details ≡ none
    → get id s.requests ≡ none
    → KeepsLate id old s.next s
missing-KeepsLate id old s h r =
    (read-missing id s h r, read-asked id s h r, complete-held id old _, complete-forgets id old _)

-- The event is asked for.
asked-next :
    (id : String) (s : Events)
    → get id s.details ≡ none
    → get id s.requests ≡ none
    → (get_calendar_event id s).0.next ≡ suc s.next
unfolding get_calendar_event
asked-next id s h r = rw (get_calendar_event, h, r) refl

-- An event that is not held is read, which sends a request. Before the response another tab's
-- calendar frame about the event comes, or this tab deletes it, or the user signs out: each drops the
-- request, so that the next read sends one of its own. Yet the response to the first request, when it
-- comes then, is kept: a read gives the event as it was before, and the newer request is forgotten.
pub late_response_lem :
    (e : SseEvent) (dashboard_id : Option String) (old : CalendarEvent) (s : Events)
    → str_eq e.entity_id "" ≡ false
    → starts_with e.event_type "calendar." ≡ true
    → get e.entity_id s.details ≡ none
    → get e.entity_id s.requests ≡ none
    → let id = e.entity_id in
      let (asked, first) = get_calendar_event id s in
      (first ≡ sent s.next)
      × KeepsLate id old (suc s.next) (handle_calendar_resource_event (frame e) false asked).0
      × KeepsLate id old (suc s.next) (delete_calendar_event id dashboard_id none asked).0.0
      × KeepsLate id old (suc s.next) (reset_calendar_data asked)
unfolding handle_calendar_resource_event delete_calendar_event reset_calendar_data
late_response_lem e dashboard_id old s n t h r =
    let id = e.entity_id in
    let asked = (get_calendar_event id s).0 in
    let dropped : Events = record asked {
      details = delete id asked.details;
      requests = delete id asked.requests;
    } in
    let number = asked-next id s h r in
    let keeps : (after : Events)
        → get id after.details ≡ none
        → get id after.requests ≡ none
        → after.next ≡ asked.next
        → KeepsLate id old (suc s.next) after =
      λ after d q m.
        subst (λ k. KeepsLate id old k after) (m ∙ number) (missing-KeepsLate id old after d q) in
    let gone = get-delete id asked.details in
    let unasked = get-delete id asked.requests in
    (
      read-missing id s h r,
      rw (t, n) (keeps dropped gone unasked refl),
      rw n (keeps (toast (undoable "Event deleted." id dashboard_id) dropped) gone unasked refl),
      keeps _ refl refl refl,
    )
