-- ===== src/Board/Listing.antt =====
-- frontend/src/stores/dashboard.ts, `loadSummaries` and `loadTrash`: one load at a time, which
-- reads again where a forced reload was asked for meanwhile.
pub mod Reloads
use frontdashboard.Prelude.{
  ℕ, suc, String, Bool, true, false, not, ◌&&◌, ◌==◌, Option, none, some, List, [], ◌∷◌,
  if◌then◌else◌, is_some,
}
use frontdashboard.DashboardTypes.{DashboardSummary, TrashedDashboard}
use frontdashboard.Board.{State, guarded}

-- A read that waits for its response: the generation of its guard, and the load's number.
pub record Read : Type 0 where
  pub gen : ℕ
  pub load : ℕ

abbrev read : ℕ → ℕ → Read
read gen load = record { gen = gen; load = load }

-- `inFlight === currentLoad ? null : inFlight`
abbrev release : ℕ → Option ℕ → Option ℕ
release load none = none
release load (some other) = if other == load then none else some other

unfoldable pub load_summaries : Bool → State → State × List Read
load_summaries force s =
    if not force && s.summaries_loaded && not s.summaries_loading
    then (s, [])
    else if is_some s.in_flight_summaries_load
    then (
      record s {
        queued_summaries_force_reload = if force then true else s.queued_summaries_force_reload;
      },
      [],
    )
    else (
      record s {
        summaries_loading = true;
        in_flight_summaries_load = some s.next_load;
        next_load = suc s.next_load;
        queued_summaries_force_reload = false;
      },
      read s.generation s.next_load ∷ [],
    )

-- The `finally` block.
abbrev pub finish_summaries : ℕ → ℕ → State → State
finish_summaries gen load s =
    let shown = guarded gen (λ t. record t { summaries_loading = false }) s in
    record shown { in_flight_summaries_load = release load shown.in_flight_summaries_load }

-- A response, or a failure, and the next read of the loop.
unfoldable pub resume_summaries : ℕ → ℕ → Option (List DashboardSummary) → State → State × List Read
resume_summaries gen load (some next_summaries) s =
    let shown =
      guarded gen (λ t. record t { summaries = next_summaries; summaries_loaded = true }) s in
    if shown.queued_summaries_force_reload
    then (record shown { queued_summaries_force_reload = false }, read gen load ∷ [])
    else (finish_summaries gen load shown, [])
resume_summaries gen load none s =
    if s.queued_summaries_force_reload
    then (record s { queued_summaries_force_reload = false }, read gen load ∷ [])
    else (
      finish_summaries gen load (record s { toasts = "Failed to load dashboards." ∷ s.toasts }),
      [],
    )

unfoldable pub load_trash : Bool → State → State × List Read
load_trash force s =
    if not force && s.trash_loaded
    then (s, [])
    else if is_some s.in_flight_trash_load
    then (
      record s { queued_trash_force_reload = if force then true else s.queued_trash_force_reload },
      [],
    )
    else (
      record s {
        in_flight_trash_load = some s.next_load;
        next_load = suc s.next_load;
        queued_trash_force_reload = false;
      },
      read s.generation s.next_load ∷ [],
    )

abbrev pub finish_trash : ℕ → State → State
finish_trash load s = record s { in_flight_trash_load = release load s.in_flight_trash_load }

unfoldable pub resume_trash : ℕ → ℕ → Option (List TrashedDashboard) → State → State × List Read
resume_trash gen load none s = (finish_trash load s, [])
resume_trash gen load (some trash) s =
    let shown = guarded gen (λ t. record t { trash = trash; trash_loaded = true }) s in
    if shown.queued_trash_force_reload
    then (record shown { queued_trash_force_reload = false }, read gen load ∷ [])
    else (finish_trash load shown, [])
