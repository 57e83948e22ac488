-- ===== src/DashboardEvents/Summaries.antt =====
-- The local update of the listing after a frame that needs no refetch.
use frontdashboard.Prelude.{
  ◌≡◌, ◌∙◌, sym, ap, refl, inl, inr, ◌⊎◌, String, Bool, false, not, ◌&&◌, ◌||◌, List, [], ◌∷◌,
  str_eq, if◌then◌else◌, map, any, arith, Bool-cases, Option-cases, str_eq_refl,
}
use frontdashboard.Prelude.Sort.{sort, any-sort, IsChained, IsTotal, sort-IsChained}
use frontdashboard.Sse.{SseEvent}
use frontdashboard.DashboardTypes.{DashboardSummary}
use frontdashboard.DashboardEvents.{
  summary_leq, sort_dashboard_summaries, touch, touches, is_current, should_touch,
  get_event_dashboard_id, apply_local_dashboard_summary_update,
}

summary_leq-IsTotal :
    (locale_leq : String → String → Bool) → IsTotal locale_leq → IsTotal (summary_leq locale_leq)
summary_leq-IsTotal leq t a b h = ground (arith, t b.updated_at a.updated_at)

-- For a total order of the time texts, the sorted listing holds the same summaries; each is
-- followed by one that the comparison does not put before it: favorites first, then the newest.
pub sort_dashboard_summaries_lem :
    (locale_leq : String → String → Bool) (summaries : List DashboardSummary)
    (p : DashboardSummary → Bool)
    → IsTotal locale_leq
    → IsChained (summary_leq locale_leq) (sort_dashboard_summaries locale_leq summaries)
      × (any p (sort_dashboard_summaries locale_leq summaries) ≡ any p summaries)
unfolding sort_dashboard_summaries
sort_dashboard_summaries_lem leq summaries p t = (
  sort-IsChained (summary_leq leq) (summary_leq-IsTotal leq t) summaries,
  any-sort (summary_leq leq) p summaries,
)

-- After the touch no summary is left to touch.
touch_settles :
    (dashboard_id : String) (event : SseEvent) (s : DashboardSummary)
    → (str_eq (touch dashboard_id event s).id dashboard_id
        && not (is_current event (touch dashboard_id event s)))
      ≡ false
touch_settles id event s = ground (arith, str_eq_refl event.created_at)

touches-map :
    (dashboard_id : String) (event : SseEvent) (xs : List DashboardSummary)
    → touches dashboard_id event (map (touch dashboard_id event) xs) ≡ false
touches-map id event [] = refl
touches-map id event (x ∷ xs) = ground (arith, touch_settles id event x, touches-map id event xs)

abbrev resorted :
    (String → String → Bool) → String → SseEvent → List DashboardSummary → List DashboardSummary
resorted leq id event xs =
    if str_eq id "" || not (touches id event xs)
    then xs
    else sort_dashboard_summaries leq (map (touch id event) xs)

resorted_twice :
    (leq : String → String → Bool) (id : String) (event : SseEvent) (xs : List DashboardSummary)
    → resorted leq id event (resorted leq id event xs) ≡ resorted leq id event xs
unfolding sort_dashboard_summaries
resorted_twice leq id event xs = elim (Bool-cases (str_eq id "" || not (touches id event xs))) [
  | inl same ↦ rw (same, same) refl
  | inr other ↦ rw other (
      ap
        (λ b.
          if str_eq id "" || not b
          then sort (summary_leq leq) (map (touch id event) xs)
          else sort (summary_leq leq)
              (map (touch id event) (sort (summary_leq leq) (map (touch id event) xs))))
        (any-sort (summary_leq leq) _ (map (touch id event) xs) ∙ touches-map id event xs)
      ∙ ground arith)
]

-- The update is one of two functions of the listing, whatever the listing.
update_cases :
    (leq : String → String → Bool) (event : SseEvent)
    → ((xs : List DashboardSummary) → apply_local_dashboard_summary_update leq xs event ≡ xs)
      ⊎ ((id : String) × ((xs : List DashboardSummary)
            → apply_local_dashboard_summary_update leq xs event ≡ resorted leq id event xs))
unfolding apply_local_dashboard_summary_update
update_cases leq event = elim (Bool-cases (should_touch event)) [
  | inr no_touch ↦ inl (λ xs. rw no_touch refl)
  | inl touched ↦ elim (Option-cases (get_event_dashboard_id event)) [
    | inl e ↦ inl (λ xs. rw touched (rw (e, apply_local_dashboard_summary_update) refl))
    | inr (id, e) ↦ inr (id, λ xs. rw touched (rw (e, apply_local_dashboard_summary_update) refl))
  ]
]

-- Applying a frame to the listing a second time changes nothing.
pub apply_local_dashboard_summary_update_idempotent :
    (locale_leq : String → String → Bool) (summaries : List DashboardSummary) (event : SseEvent)
    → apply_local_dashboard_summary_update locale_leq
        (apply_local_dashboard_summary_update locale_leq summaries event)
        event
      ≡ apply_local_dashboard_summary_update locale_leq summaries event
apply_local_dashboard_summary_update_idempotent leq xs event = elim (update_cases leq event) [
  | inl same ↦ rw (same xs) (same xs)
  | inr (id, as_resorted) ↦
      as_resorted (apply_local_dashboard_summary_update leq xs event)
      ∙ ap (resorted leq id event) (as_resorted xs)
      ∙ resorted_twice leq id event xs
      ∙ sym (as_resorted xs)
]
