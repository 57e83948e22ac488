-- ===== src/Stream/Frames.antt =====
-- Which handlers a frame reaches, and the mark that it leaves.
use frontdashboard.Prelude.{
  ◌≤◌, ◌≡◌, refl, String, Bool, true, false, not, ◌||◌, none, some, List, [], ◌∷◌, is_some, or_else,
  any, all, str_eq, eq_iff, starts_with, arith, Bool-cases, Option-cases, inl, inr,
}
use frontdashboard.Prelude.Dict.{get}
use frontdashboard.Sse.{SseEvent}
use frontdashboard.Stream.{
  Stream, EventRoute, to_list, to_calendar, to_dashboard, event_routes, resync_targets, same_route,
  routes_of, resync_routes, wants, on_activity_frame,
}

-- The prefix of the events that the handlers of a route act on.
abbrev pub prefix_of : EventRoute → String
prefix_of to_list = "list."
prefix_of to_calendar = "calendar."
prefix_of to_dashboard = "dashboard."

all-get :
    (p : String × EventRoute → Bool) (k : String) (r : EventRoute) (m : List (String × EventRoute))
    → all p m ≡ true
    → get k m ≡ some r
    → p (k, r) ≡ true
all-get p k r [] h e = cc
all-get p k r ((j, q) ∷ m) h e = elim (Bool-cases (str_eq j k)) [
  | inl i ↦
      let same : some q ≡ some r = ground (arith, e) in
      let q' : q ≡ r = cc in rw (← q', ← (eq_iff j k).0 i) (ground (arith, h))
  | inr i ↦ all-get p k r m (ground (arith, h)) (ground (arith, e))
]

-- A frame of an event that has a route reaches handlers that act on events of its name, and raises
-- the mark to the frame's id at least, never lower than it was. A frame of any other event changes
-- nothing.
pub on_activity_frame_lem :
    (client name : String) (e : SseEvent) (s : Stream)
    → ((route : EventRoute)
        → get name event_routes ≡ some route
        → (starts_with name (prefix_of route) ≡ true)
          × (e.event_id ≤ or_else (on_activity_frame client name (some e) s).0.watermark 0)
          × (or_else s.watermark 0
              ≤ or_else (on_activity_frame client name (some e) s).0.watermark 0))
      × (get name event_routes ≡ none → on_activity_frame client name (some e) s ≡ (s, []))
unfolding on_activity_frame
on_activity_frame_lem client name e s = (
  λ route h. (
    all-get (λ r. starts_with r.0 (prefix_of r.1)) name route event_routes refl h,
    rw (on_activity_frame, h) (ground arith),
    rw (on_activity_frame, h) (ground arith),
  ),
  λ h. rw (on_activity_frame, h) refl,
)

-- Whether an entity type is a route's, and whether it is none that the tab knows.
abbrev pub is_of : EventRoute → String → Bool
is_of route scope = elim (get scope resync_targets) [
  | none ↦ false
  | some target ↦ same_route route target
]

abbrev pub is_unknown : String → Bool
is_unknown scope = not (is_some (get scope resync_targets))

-- A resync concerns a route exactly if one of its scopes is the route's, or one is unknown.
pub wants-resync_routes :
    (route : EventRoute) (scopes : List String)
    → wants (resync_routes (some scopes)) route
      ≡ (any is_unknown scopes || any (is_of route) scopes)
unfolding resync_routes routes_of
wants-resync_routes route [] = refl
wants-resync_routes route (scope ∷ scopes) =
    let rest : wants (routes_of scopes) route
        ≡ (any is_unknown scopes || any (is_of route) scopes) =
      wants-resync_routes route scopes in
    elim (Option-cases (get scope resync_targets)) [
      | inl e ↦ rw (resync_routes, routes_of, e) refl
      | inr (target, e) ↦ elim (Option-cases (routes_of scopes)) [
        | inl r ↦ rw (resync_routes, routes_of, e, r) (ground (arith, rw r at rest))
        | inr (routes, r) ↦ rw (resync_routes, routes_of, e, r) (ground (arith, rw r at rest))
      ]
    ]
