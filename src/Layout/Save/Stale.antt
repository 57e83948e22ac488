-- ===== src/Layout/Save/Stale.antt =====
-- Responses that arrive after the session or the board has changed.
use frontdashboard.Prelude.{
  ℕ, suc, ◌==◌, ◌≡◌, ◌∙◌, refl, String, ap, true, false, Option, none, some, List, [], ◌∷◌, str_eq,
  str_eq_refl, arith,
}
use frontdashboard.DashboardTypes.{Dashboard, LayoutItem}
use frontdashboard.Layout.Save.{
  State, PendingLayoutSave, putting, saved, conflicted, failed, request, save_layout, resume_put,
  reset,
}

-- The board is open, and no save is in flight.
abbrev pub at_rest_on : Dashboard → State → State
at_rest_on held s = record s { dashboard = some held; layout_save_in_flight = false }

-- A save of the board is in flight, with what waits for its response.
abbrev pub saving : Dashboard → Option PendingLayoutSave → State → State
saving held pending s = record s {
  dashboard = some held;
  layout_save_in_flight = true;
  pending_layout_save = pending;
}

save_layout-idle :
    (layout : List LayoutItem) (gesture : Option String) (s : State) (held : Dashboard)
    → save_layout layout gesture (at_rest_on held s)
      ≡ (saving held none s, putting s.generation held (request held layout gesture) ∷ [])
unfolding save_layout
save_layout-idle layout gesture s held =
    let now : (s.generation == s.generation) ≡ true = ground arith in
    rw (save_layout, now, str_eq_refl held.id) refl

-- The response to a save of the board on which the drain goes on.
saved-continues :
    (gen : ℕ) (held result : Dashboard) (sent waiting : PendingLayoutSave) (s : State)
    → (gen == s.generation) ≡ true
    → str_eq result.id waiting.dashboard_id ≡ true
    → (resume_put gen held sent (saved result) (saving held (some waiting) s)).1
      ≡ putting gen (record result { widgets = held.widgets }) waiting ∷ []
unfolding resume_put
saved-continues gen held result sent waiting s g h = rw (resume_put, g, h) refl

saved-ends :
    (gen : ℕ) (held open_ result : Dashboard) (sent : PendingLayoutSave) (s : State)
    → (gen == s.generation) ≡ true
    → resume_put gen held sent (saved result) (saving open_ none s) ≡ (
      at_rest_on
          (record result { widgets = open_.widgets })
          (record s { pending_layout_save = none; conflict = false }),
      [],
    )
unfolding resume_put
saved-ends gen held open_ result sent s g = rw (resume_put, g) refl

-- The session that follows a sign-out opens a board and saves two layouts: the first is sent.
abbrev pub saved_twice : State → Dashboard → List LayoutItem → List LayoutItem → State
saved_twice s held first second =
    (save_layout second none
      (save_layout first none (record (reset s) { dashboard = some held })).0).0

saved_twice-eq :
    (s : State) (held : Dashboard) (first second : List LayoutItem)
    → saved_twice s held first second ≡ saving held (some (request held second none)) (reset s)
unfolding reset save_layout
saved_twice-eq s held first second =
    let sent = save_layout-idle first none (reset s) held in
    ap (λ r. (save_layout second none r.0).0) sent

-- A response to a save of the session before, while in the present one a first layout is in flight
-- and a second waits: where the server saved or conflicted it changes nothing, and the second layout
-- is sent once the first is saved. But where the save of before failed, its toast is shown and the
-- second layout is dropped: once the first is saved, nothing is sent.
pub late_failure_lem :
    (s : State) (current held result : Dashboard) (stale : PendingLayoutSave)
    (first second : List LayoutItem) (old : Dashboard)
    → str_eq result.id held.id ≡ true
    → let waiting = saved_twice s held first second in
      let gen = waiting.generation in
      let sent = request held first none in
      let lost = (resume_put s.generation current stale failed waiting).0 in
      (resume_put s.generation current stale (saved old) waiting ≡ (waiting, []))
      × (resume_put s.generation current stale conflicted waiting ≡ (waiting, []))
      × ((resume_put gen held sent (saved result) waiting).1
          ≡ putting gen (record result { widgets = held.widgets }) (request held second none) ∷ [])
      × (lost.toasts ≡ "Failed to save layout." ∷ s.toasts)
      × ((resume_put gen held sent (saved result) lost).1 ≡ [])
unfolding resume_put reset
late_failure_lem s current held result stale first second old h =
    let e = saved_twice-eq s held first second in
    let late : (s.generation == suc s.generation) ≡ false = ground arith in
    let now : (suc s.generation == suc s.generation) ≡ true = ground arith in
    rw e (
      rw late refl,
      rw late refl,
      saved-continues (suc s.generation) held result (request held first none)
          (request held second none) (reset s) now h,
      refl,
      rw late (
          ap (λ r. r.1)
            (saved-ends (suc s.generation) held held result (request held first none)
              (record (reset s) { toasts = "Failed to save layout." ∷ s.toasts }) now)),
    )

-- A layout is saved, and another board is opened before the server has saved it. Then the save puts
-- the saved board in the place of the open one, with the widgets of the open one; and what the user
-- moves next, on the board that was opened, is sent to the saved one.
pub saved_over_other_board :
    (s : State) (held other result : Dashboard) (layout next : List LayoutItem)
    → let (sending, drains) = save_layout layout none (at_rest_on held s) in
      let opened = record sending { dashboard = some other } in
      let sent = request held layout none in
      let late = (resume_put s.generation held sent (saved result) opened).0 in
      let shown = record result { widgets = other.widgets } in
      (drains ≡ putting s.generation held sent ∷ [])
      × (late.dashboard ≡ some shown)
      × ((save_layout next none late).1
          ≡ putting s.generation shown (request result next none) ∷ [])
unfolding resume_put
saved_over_other_board s held other result layout next =
    let e = save_layout-idle layout none s held in
    let now : (s.generation == s.generation) ≡ true = ground arith in
    let sent = request held layout none in
    let shown = record result { widgets = other.widgets } in
    let ends = saved-ends s.generation held other result sent s now in
    let idle =
      save_layout-idle next none (record s { pending_layout_save = none; conflict = false })
        shown in
    rw e (
      refl,
      ap (λ r. r.0.dashboard) ends,
      ap (λ r. (save_layout next none r.0).1) ends ∙ ap (λ r. r.1) idle,
    )
