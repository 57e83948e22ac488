-- ===== src/Activity/Actions.antt =====
-- What the user, the stream and a sign-out do to the feed and its requests.
use frontdashboard.Prelude.{
  ◌≡◌, refl, inl, inr, String, Bool, true, not, ◌&&◌, ◌||◌, Option, str_eq, All, arith, Bool-cases,
  Option-cases,
}
use frontdashboard.Activity.{
  ActivityEvent, State, oldest, load_activity, load_more_activity, set_activity_filter,
  add_activity_from_sse, is_own_feed_activity, has_event, reset,
}
use frontdashboard.Activity.Interleaving.{fits, IsKnown, Follows}

pub load-Follows : (force : Bool) (s : State) → Follows s (load_activity force s).0
unfolding load_activity
load-Follows force s = ground arith

pub load-keeps :
    (force : Bool) (s : State)
    → ((load_activity force s).0.activity ≡ s.activity)
      × ((load_activity force s).0.activity_filter ≡ s.activity_filter)
unfolding load_activity
load-keeps force s = (ground arith, ground arith)

pub load-IsKnown :
    (force : Bool) (s : State) → All (IsKnown (load_activity force s).0) (load_activity force s).1
unfolding load_activity
load-IsKnown force s = elim (Bool-cases (not force && s.activity_loaded || s.activity_promise)) [
  | inl e ↦ rw e tt
  | inr e ↦ rw e ((omega arith, λ q. refl), tt)
]

pub load_more-keeps :
    (s : State)
    → ((load_more_activity s).0.activity ≡ s.activity)
      × ((load_more_activity s).0.activity_filter ≡ s.activity_filter)
unfolding load_more_activity
load_more-keeps s = elim (Option-cases (oldest s.activity)) [
  | inl e ↦ rw e (ground arith, ground arith)
  | inr (last, e) ↦ rw e (ground arith, ground arith)
]

pub load_more-Follows : (s : State) → Follows s (load_more_activity s).0
unfolding load_more_activity
load_more-Follows s = elim (Option-cases (oldest s.activity)) [
  | inl e ↦ rw e (ground arith)
  | inr (last, e) ↦ rw e (ground arith)
]

pub load_more-IsKnown :
    (s : State) → All (IsKnown (load_more_activity s).0) (load_more_activity s).1
unfolding load_more_activity
load_more-IsKnown s = elim (Bool-cases (s.activity_load_more_promise || s.activity_loading_more)) [
  | inl e ↦ rw e tt
  | inr e ↦ elim (Option-cases (oldest s.activity)) [
    | inl o ↦ rw e (rw o tt)
    | inr (last, o) ↦ rw e (rw o (tt, tt))
  ]
]

pub load_from-IsKnown :
    (filter_id : String) (s : State)
    → All (IsKnown (set_activity_filter filter_id s).0) (set_activity_filter filter_id s).1
unfolding set_activity_filter load_activity
load_from-IsKnown filter_id s = elim (Bool-cases (str_eq s.activity_filter filter_id)) [
  | inl e ↦ rw e tt
  | inr e ↦ rw e ((omega arith, λ q. refl), tt)
]

pub set_activity_filter-Follows :
    (filter_id : String) (s : State) → Follows s (set_activity_filter filter_id s).0
unfolding set_activity_filter load_activity
set_activity_filter-Follows filter_id s = ground arith

pub set_activity_filter-fits :
    (filter_id : String) (s : State)
    → fits s.activity_filter s.activity ≡ true
    → fits
        (set_activity_filter filter_id s).0.activity_filter
        (set_activity_filter filter_id s).0.activity
      ≡ true
unfolding set_activity_filter load_activity
set_activity_filter-fits filter_id s h = elim (Bool-cases (str_eq s.activity_filter filter_id)) [
  | inl e ↦ rw e h
  | inr e ↦ rw e refl
]

pub streamed-Follows :
    (event : ActivityEvent) (viewer_id : Option String) (s : State)
    → Follows s (add_activity_from_sse event viewer_id s)
unfolding add_activity_from_sse
streamed-Follows event viewer_id s = ground arith

pub and-right : (a b : Bool) → (a && b) ≡ true → b ≡ true
and-right a b h = ground arith

pub and-both : (a b : Bool) → a ≡ true → b ≡ true → (a && b) ≡ true
and-both a b h k = ground arith

pub streamed-fits :
    (event : ActivityEvent) (viewer_id : Option String) (s : State)
    → fits s.activity_filter s.activity ≡ true
    → fits
        (add_activity_from_sse event viewer_id s).activity_filter
        (add_activity_from_sse event viewer_id s).activity
      ≡ true
unfolding add_activity_from_sse is_own_feed_activity
streamed-fits event viewer_id s h =
    elim (Bool-cases (is_own_feed_activity event viewer_id s.activity_filter)) [
      | inl e ↦ elim (Bool-cases s.activity_loaded) [
        | inl l ↦ elim (Bool-cases (has_event s.activity event.event_id)) [
          | inl d ↦ rw l (rw e (rw d h))
          | inr d ↦ rw l (rw e (rw d (and-both _ _ (and-right _ _ e) h)))
        ]
        | inr l ↦ rw l h
      ]
      | inr e ↦ elim (Bool-cases s.activity_loaded) [ inl l ↦ rw l (rw e h) | inr l ↦ rw l h ]
    ]

pub reset-Follows : (s : State) → Follows s (reset s)
unfolding reset
reset-Follows s = inr (omega arith)

pub reset-fits : (s : State) → fits (reset s).activity_filter (reset s).activity ≡ true
unfolding reset
reset-fits s = refl
