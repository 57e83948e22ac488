-- ===== src/Board/Events/Content.antt =====
-- The held dashboard after a list is deleted.
use frontdashboard.Prelude.{
  opt_eq, suc, ◌≡◌, refl, true, false, not, ◌&&◌, Bool, some, List, [], ◌∷◌, arith, any, filter,
  str_eq, length, if◌then◌else◌, ltb, any-filter,
}
use frontdashboard.DashboardTypes.{Dashboard, DashboardWidget}
use frontdashboard.Sse.{SseEvent}
use frontdashboard.DashboardEvents.{get_event_dashboard_id}
use frontdashboard.Board.{State}
use frontdashboard.Board.Events.{
  active_id, concerned, shows_list, is_removed, without_list, handle_content_event,
}

any-filter-not {ℓ} :
    {A : Type ℓ} (q : A → Bool) (xs : List A) → any q (filter (λ x. not (q x)) xs) ≡ false
any-filter-not q [] = refl
any-filter-not q (x ∷ xs) = ground (arith, any-filter-not q xs)

any-eq-length {ℓ} :
    {A : Type ℓ} (q : A → Bool) (xs : List A) → ltb 0 (length (filter q xs)) ≡ any q xs
any-eq-length q [] = refl
any-eq-length q (x ∷ xs) = ground (arith, any-eq-length q xs)

held-concerned :
    (event : SseEvent) (s : State) (held : Dashboard)
    → s.dashboard ≡ some held
    → str_eq held.id "" ≡ false
    → opt_eq (get_event_dashboard_id event) held.id ≡ true
    → concerned event s ≡ some held.id
unfolding concerned active_id
held-concerned event s held h k e = ground arith

-- When a frame of the held dashboard, whose id is not empty, says that a list was deleted: no
-- widget shows the list any more, no place in the layout is left for a widget that did, every other
-- widget stays, and the version moves by one exactly if a widget showed it.
pub handle_content_event_lem :
    (event : SseEvent) (s : State) (held : Dashboard) (p : DashboardWidget → Bool)
    → s.dashboard ≡ some held
    → str_eq held.id "" ≡ false
    → opt_eq (get_event_dashboard_id event) held.id ≡ true
    → str_eq event.event_type "list.deleted" ≡ true
    → (after : Dashboard) × ((handle_content_event event s).dashboard ≡ some after)
      × (any (shows_list event.entity_id) after.widgets ≡ false)
      × (any (is_removed event.entity_id held.widgets) after.layout ≡ false)
      × (any p after.widgets ≡ any (λ w. not (shows_list event.entity_id w) && p w) held.widgets)
      × (after.version ≡ (
          if any (shows_list event.entity_id) held.widgets then suc held.version else held.version))
unfolding handle_content_event without_list
handle_content_event_lem event s held p h n e k =
    let c = held-concerned event s held h n e in
    (
      without_list event.entity_id held,
      ground arith,
      any-filter-not (shows_list event.entity_id) held.widgets,
      any-filter-not (is_removed event.entity_id held.widgets) held.layout,
      any-filter p (λ w. not (shows_list event.entity_id w)) held.widgets,
      ground (arith, any-eq-length (shows_list event.entity_id) held.widgets),
    )
