-- ===== src/Board/Events/Routing.antt =====
-- What a frame leads to.
use frontdashboard.Prelude.{
  opt_eq, some, ◌≡◌, true, false, String, Bool, Option, none, [], arith, inl, inr, any, str_eq,
  Option-cases,
}
use frontdashboard.Sse.{SseEvent, frame}
use frontdashboard.DashboardTypes.{Dashboard}
use frontdashboard.DashboardEvents.{get_event_dashboard_id}
use frontdashboard.Board.{State}
use frontdashboard.Board.Events.{
  active_id, Effect, reload_summaries, schedule_summaries, reload_trash, open_dashboard,
  schedule_dashboard, suppresses, concerned, update_listing, update_held, handle_frame,
  handle_dashboard_event,
}

abbrev pub loads_dashboard : Effect → Bool
loads_dashboard (open_dashboard _ _) = true
loads_dashboard (schedule_dashboard _ _) = true
loads_dashboard reload_summaries = false
loads_dashboard schedule_summaries = false
loads_dashboard reload_trash = false

-- The echo of the tab's own write, where its response has applied it and it is no deletion: nothing
-- is loaded or scheduled, and the held dashboard stays as it is.
pub own_echo_lem :
    (locale_leq : String → String → Bool) (client : String) (user : Option String)
    (event : SseEvent) (s : State)
    → suppresses client user event ≡ true
    → str_eq event.event_type "dashboard.deleted" ≡ false
    → let r = handle_dashboard_event locale_leq client user (frame event) s in
      (r.1 ≡ []) × (r.0.dashboard ≡ s.dashboard)
unfolding handle_dashboard_event handle_frame update_listing update_held
own_echo_lem locale_leq client user event s h k = elim (Option-cases (concerned event s)) [
  | inl e ↦ rw (handle_frame, e) (ground arith, ground arith)
  | inr (id, e) ↦ rw (handle_frame, e) (ground arith, ground arith)
]

other-concerned :
    (event : SseEvent) (s : State) (held : Dashboard)
    → s.dashboard ≡ some held
    → opt_eq (get_event_dashboard_id event) held.id ≡ false
    → concerned event s ≡ none
unfolding concerned active_id
other-concerned event s held h e = ground arith

-- A frame that is not about the held dashboard leaves what is shown of it, and loads no dashboard.
pub other_dashboard_lem :
    (locale_leq : String → String → Bool) (client : String) (user : Option String)
    (event : SseEvent) (s : State) (held : Dashboard)
    → s.dashboard ≡ some held
    → opt_eq (get_event_dashboard_id event) held.id ≡ false
    → let r = handle_dashboard_event locale_leq client user (frame event) s in
      (r.0.dashboard ≡ some held)
      × (r.0.loading ≡ s.loading)
      × (r.0.load_error ≡ s.load_error)
      × (r.0.conflict ≡ s.conflict)
      × (any loads_dashboard r.1 ≡ false)
unfolding handle_dashboard_event handle_frame update_listing
other_dashboard_lem locale_leq client user event s held h e =
    rw (handle_frame, other-concerned event s held h e)
      (ground (arith, h), ground arith, ground arith, ground arith, ground arith)
