-- ===== src/Activity/Tests.antt =====
-- The feed on concrete runs.
use frontdashboard.Prelude.{◌≡◌, refl, String, true, false, some, [], ◌∷◌}
use frontdashboard.Activity.{
  ActivityEvent, first_page, load_activity, complete_load_activity, set_activity_filter,
  add_activity_from_sse, event_types_for_activity_filter,
}
use frontdashboard.Activity.Interleaving.{
  World, at_rest, fits, Reach, here, next, opened, filtered, first_settled, after,
}
use frontdashboard.Activity.Filtered.{Reach-IsFiltered}

abbrev row : String → ActivityEvent
row event_type = record { event_id = 7; event_type = event_type; actor_id = "me" }

abbrev two_asked : World
two_asked =
    let w = after at_rest (load_activity false at_rest.state) in
    after w (set_activity_filter "lists" w.state)

-- The page for the first filter comes in late, then the page for the present one.
abbrev late : World
late = record {
  state = complete_load_activity 0 1 (some (row "dashboard.created" ∷ [])) two_asked.state;
  requests = first_page 0 2 "lists" ∷ [];
}

abbrev settled : World
settled = record {
  state = complete_load_activity 0 2 (some (row "list.created" ∷ [])) late.state;
  requests = [];
}

runs :
    (two_asked.requests ≡ first_page 0 1 "all" ∷ first_page 0 2 "lists" ∷ [])
    × (late.state.activity ≡ [])
    × (settled.state.activity ≡ row "list.created" ∷ [])
    × ((add_activity_from_sse (row "list.updated") (some "you") settled.state).activity
        ≡ row "list.created" ∷ [])
unfolding load_activity set_activity_filter complete_load_activity add_activity_from_sse
runs = (refl, refl, refl, refl)

asked : two_asked.requests ≡ first_page 0 1 "all" ∷ first_page 0 2 "lists" ∷ []
unfolding load_activity set_activity_filter
asked = refl

fitting : fits "lists" (row "list.created" ∷ []) ≡ true
unfolding event_types_for_activity_filter
fitting = refl

all_fitting : fits "all" (row "dashboard.created" ∷ []) ≡ true
unfolding event_types_for_activity_filter
all_fitting = refl

late-Reach : Reach late
late-Reach = next (next (next here (opened false)) (filtered "lists")) (
    first_settled [] (first_page 0 2 "lists" ∷ []) 0 1 "all" (some (row "dashboard.created" ∷ []))
      asked all_fitting)

settled-Reach : Reach settled
settled-Reach =
    next late-Reach (first_settled [] [] 0 2 "lists" (some (row "list.created" ∷ [])) refl fitting)

Reach-IsFiltered_example : fits settled.state.activity_filter settled.state.activity ≡ true
Reach-IsFiltered_example = Reach-IsFiltered settled-Reach
