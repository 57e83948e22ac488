-- ===== src/Board/Listing/Reloads.antt =====
-- A forced reload during a load.
use frontdashboard.Prelude.{ℕ, ◌≡◌, true, false, Option, none, some, List, [], ◌∷◌, arith}
use frontdashboard.DashboardTypes.{DashboardSummary, TrashedDashboard}
use frontdashboard.Board.{State}
use frontdashboard.Board.Listing.{load_summaries, resume_summaries, load_trash, resume_trash}

-- A forced reload that finds the session's listing load in flight sends no second read; whatever
-- the response of that load is, a failure too, the load then reads once more, and a
-- successful answer to this last read is what is shown, with the load over.
pub forced_reload :
    (s : State) (load : ℕ) (response : Option (List DashboardSummary))
    (rows : List DashboardSummary)
    → s.in_flight_summaries_load ≡ some load
    → let asked = load_summaries true s in
      let again = resume_summaries s.generation load response asked.0 in
      let done = resume_summaries s.generation load (some rows) again.0 in
      (asked.1 ≡ [])
      × (again.1 ≡ (record { gen = s.generation; load = load }) ∷ [])
      × (done.1 ≡ [])
      × (done.0.summaries ≡ rows)
      × (done.0.summaries_loading ≡ false)
      × (done.0.in_flight_summaries_load ≡ none)
unfolding load_summaries resume_summaries
forced_reload s load none rows e =
    (ground arith, ground arith, ground arith, ground arith, ground arith, ground arith)
forced_reload s load (some first) rows e =
    (ground arith, ground arith, ground arith, ground arith, ground arith, ground arith)

-- So does a forced reload of the trash, where the load's response is no failure; a failure ends the
-- load, and the forced reload is lost.
pub forced_trash_reload :
    (s : State) (load : ℕ) (first : List TrashedDashboard)
    → s.in_flight_trash_load ≡ some load
    → let asked = load_trash true s in
      let again = resume_trash s.generation load (some first) asked.0 in
      let failed = resume_trash s.generation load none asked.0 in
      (asked.1 ≡ [])
      × (again.1 ≡ (record { gen = s.generation; load = load }) ∷ [])
      × (failed.1 ≡ [])
      × (failed.0.in_flight_trash_load ≡ none)
      × (failed.0.trash ≡ s.trash)
unfolding load_trash resume_trash
forced_trash_reload s load first e =
    (ground arith, ground arith, ground arith, ground arith, ground arith)
