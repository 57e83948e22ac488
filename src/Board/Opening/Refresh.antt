-- ===== src/Board/Opening/Refresh.antt =====
-- Requests for a dashboard that overlap.
use frontdashboard.Prelude.{
  ℕ, ◌≡◌, refl, true, false, Option, none, some, [], ◌∷◌, arith, ap, ◌∙◌, ◌⊎◌, inl, inr,
  Option-cases,
}
use frontdashboard.LoadOptions.{
  NormalizedOptions, merge_dashboard_load_options, dashboard_load_satisfies_request,
}
use frontdashboard.DashboardTypes.{Dashboard}
use frontdashboard.Board.{State, DashboardLoad}
use frontdashboard.Board.Opening.{
  Fetch, join_load, settle_turn, resume_load, start_turn, end_load, is_latest,
}

-- The load after a background request has joined it.
settle-loads :
    (f : Fetch) (response : Dashboard ⊎ Option ℕ) (s : State)
    → (settle_turn f response s).dashboard_loads ≡ s.dashboard_loads
unfolding settle_turn
settle-loads f (inl dashboard) s = ground arith
settle-loads f (inr status) s = ground arith

resume-queued :
    (f : Fetch) (response : Dashboard ⊎ Option ℕ) (s : State) (options : NormalizedOptions)
    → (s.dashboard_loads f.load).queued_options ≡ some options
    → resume_load f response s ≡ start_turn f.gen f.load f.id options (settle_turn f response s)
unfolding resume_load
resume-queued f response s options e =
    let queued : ((settle_turn f response s).dashboard_loads f.load).queued_options ≡ some options =
      ap (λ (loads : ℕ → DashboardLoad). (loads f.load).queued_options) (settle-loads f response s)
      ∙ e in
    rw (resume_load, queued) refl

resume-last :
    (f : Fetch) (response : Dashboard ⊎ Option ℕ) (s : State)
    → (s.dashboard_loads f.load).queued_options ≡ none
    → resume_load f response s ≡ (end_load f.load (settle_turn f response s), [])
unfolding resume_load
resume-last f response s e =
    let queued : ((settle_turn f response s).dashboard_loads f.load).queued_options ≡ none =
      ap (λ (loads : ℕ → DashboardLoad). (loads f.load).queued_options) (settle-loads f response s)
      ∙ e in
    rw (resume_load, queued) refl

settle-superseded :
    (f : Fetch) (response : Dashboard ⊎ Option ℕ) (s : State)
    → is_latest f.id f.load s ≡ false
    → settle_turn f response s ≡ s
unfolding settle_turn
settle-superseded f (inl dashboard) s e = rw e refl
settle-superseded f (inr status) s e = rw e refl

merge-satisfies :
    (current : Option NormalizedOptions) (requested : NormalizedOptions)
    → dashboard_load_satisfies_request (merge_dashboard_load_options current requested) requested
      ≡ true
unfolding merge_dashboard_load_options dashboard_load_satisfies_request
merge-satisfies none requested = ground arith
merge-satisfies (some current) requested = ground arith

-- The options that a background request leaves queued.
join_load-queued :
    (load serial : ℕ) (requested : NormalizedOptions) (s : State)
    → requested.background ≡ true
    → ((join_load load serial requested s).dashboard_loads load).queued_options
      ≡ some (merge_dashboard_load_options (s.dashboard_loads load).queued_options requested)
unfolding join_load
join_load-queued load serial requested s b = ground arith

-- A foreground turn of the session: the spinner is up, the rest of what is shown stays, the queue is
-- empty, and the request is as late as it was.
start_turn-foreground :
    (f : Fetch) (options : NormalizedOptions) (s : State)
    → f.gen ≡ s.generation
    → options.background ≡ false
    → let t = (start_turn f.gen f.load f.id options s).0 in
      (t.dashboard ≡ s.dashboard)
      × (t.loading ≡ true)
      × ((t.dashboard_loads f.load).queued_options ≡ none)
      × (is_latest f.id f.load t ≡ is_latest f.id f.load s)
unfolding start_turn
start_turn-foreground f options s g b = (ground arith, ground arith, ground arith, ground arith)

end_load-keeps :
    (load : ℕ) (s : State)
    → ((end_load load s).dashboard ≡ s.dashboard) × ((end_load load s).loading ≡ s.loading)
end_load-keeps load s = elim (Option-cases s.in_flight_dashboard_load) [
  | inl e ↦ rw e (refl, refl)
  | inr (other, e) ↦ rw e (ground arith, ground arith)
]

-- A refresh that is asked for while a load is out is answered by a further fetch when its response
-- comes, whatever the response is; the fetch surfaces a loss of access if the refresh asked so.
pub join_load_refetches :
    (f : Fetch) (serial : ℕ) (requested : NormalizedOptions) (response : Dashboard ⊎ Option ℕ)
    (s : State)
    → requested.background ≡ true
    → (next : Fetch) × ((resume_load f response (join_load f.load serial requested s)).1
        ≡ next ∷ [])
      × (next.id ≡ f.id)
      × (dashboard_load_satisfies_request next.options requested ≡ true)
unfolding start_turn
join_load_refetches f serial requested response s b =
    let joined = join_load f.load serial requested s in
    let options =
      merge_dashboard_load_options (s.dashboard_loads f.load).queued_options requested in
    (
      record { gen = f.gen; load = f.load; id = f.id; options = options },
      rw (resume-queued f response joined options (join_load-queued f.load serial requested s b))
          refl,
      refl,
      merge-satisfies (s.dashboard_loads f.load).queued_options requested,
    )

-- A fetch of the session whose request is no longer the latest shows nothing; but where a foreground
-- request was queued behind it, it then raises the spinner over the dashboard that replaced it, and
-- the response to its own further fetch, with nothing more queued, leaves the spinner up.
pub superseded_spinner :
    (f : Fetch) (first second : Dashboard ⊎ Option ℕ) (options : NormalizedOptions) (s : State)
    → f.gen ≡ s.generation
    → is_latest f.id f.load s ≡ false
    → (s.dashboard_loads f.load).queued_options ≡ some options
    → options.background ≡ false
    → let again = resume_load f first s in
      let done = resume_load (record f { options = options }) second again.0 in
      (again.0.dashboard ≡ s.dashboard)
      × (again.0.loading ≡ true)
      × (done.0.dashboard ≡ s.dashboard)
      × (done.0.loading ≡ true)
      × (done.1 ≡ [])
superseded_spinner f first second options s g l q b =
    let begun = start_turn f.gen f.load f.id options s in
    let turn = start_turn-foreground f options s g b in
    let f' : Fetch = record f { options = options } in
    let late : is_latest f.id f.load begun.0 ≡ false = turn.3 ∙ l in
    let again : resume_load f first s ≡ begun =
      resume-queued f first s options q
      ∙ ap (start_turn f.gen f.load f.id options) (settle-superseded f first s l) in
    let done : resume_load f' second begun.0 ≡ (end_load f.load begun.0, []) =
      resume-last f' second begun.0 turn.2
      ∙ ap (λ t. (end_load f.load t, [])) (settle-superseded f' second begun.0 late) in
    let kept = end_load-keeps f.load begun.0 in
    rw again (rw done (turn.0, turn.1, kept.0 ∙ turn.0, kept.1 ∙ turn.1, refl))
